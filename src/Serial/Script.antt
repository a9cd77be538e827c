-- ===== src/Serial/Script.antt =====
-- A serial interface that answers from a script, for the examples: the responses and the numbers to
-- come, the characters on the line, and what has been printed.
use a76xx.Prelude.{ℕ, true, List, [], ◌∷◌, ◌++◌, length, take, drop}
use a76xx.Prelude.Int.{ℤ, pos, negsuc}
use a76xx.Serial.{Text, Response, Item, ModemSerial}

pub record Script : Type 0 where
  pub responses : List Response
  pub numbers : List ℤ
  pub line : Text
  pub printed : List Item

abbrev pub next_response : List Response → Response × List Response
next_response [] = (Response.timeout, [])
next_response (r ∷ rs) = (r, rs)

abbrev pub next_number : List ℤ → ℤ × List ℤ
next_number [] = (pos 0, [])
next_number (z ∷ zs) = (z, zs)

abbrev pub take_bytes : ℤ → Text → (ℕ × Text) × Text
take_bytes (pos n) line = ((length (take n line), take n line), drop n line)
take_bytes (negsuc n) line = ((0, []), line)

abbrev pub first : Text → ℤ
first [] = negsuc 0
first (c ∷ cs) = pos c

abbrev pub with_line : Script → Text → Script
with_line s line = record {
  responses = s.responses;
  numbers = s.numbers;
  line = line;
  printed = s.printed;
}

abbrev pub scripted : ModemSerial Script ℕ
scripted = record {
  wait_response = λ a b c millis match_ok match_error s.
      let (r, rs) = next_response s.responses in
      (r, record { responses = rs; numbers = s.numbers; line = s.line; printed = s.printed });
  print_item = λ item s. record {
    responses = s.responses;
    numbers = s.numbers;
    line = s.line;
    printed = s.printed ++ item ∷ [];
  };
  available = λ s. (length s.line, s);
  parse_int = λ s.
      let (z, zs) = next_number s.numbers in
      (z, record { responses = s.responses; numbers = zs; line = s.line; printed = s.printed });
  parse_float = λ s. (0, s);
  flush = λ s. s;
  peek = λ s. (first s.line, s);
  read = λ s. (first s.line, with_line s (drop 1 s.line));
  find = λ c s. (true, s);
  write = λ text s. (length text, s);
  read_bytes_until = λ c n s. let (bytes, rest) = take_bytes n s.line in (bytes, with_line s rest);
  read_bytes = λ n s. let (bytes, rest) = take_bytes n s.line in (bytes, with_line s rest);
}

abbrev pub start : List Response → List ℤ → Text → Script
start responses numbers line = record {
  responses = responses;
  numbers = numbers;
  line = line;
  printed = [];
}
