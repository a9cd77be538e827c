-- ===== src/Clients/Sms/Send/Chunks.antt =====
-- How send of src/clients/sms.cpp cuts a text: the parts, and that they make up the text.
use a76xx.Prelude.{
  ℕ, zero, suc, ◌+◌, ◌-◌, ◌/◌, ◌<◌, ◌≤◌, ◌≡◌, refl, sym, ap, ◌∙◌, inl, inr, Option, none, some,
  List, [], ◌∷◌, ◌++◌, length, take, drop, length-take, length-drop, take-append-drop, subst, arith,
  Bool-cases, ltb, if◌then◌else◌,
}
use a76xx.Serial.{Text}

-- A text in `left` parts of at most `size` characters.
unfoldable pub chunks : ℕ → ℕ → Text → List Text
chunks size zero text = []
chunks size (suc left) text = take size text ∷ chunks size left (drop size text)

unfoldable pub join : List Text → Text
join [] = []
join (part ∷ parts) = part ++ join parts

-- The size of the parts that a text is sent in, their number, and what every part is told.
unfoldable pub part_size : Text → ℕ
part_size text = if ltb 160 (length text) then 153 else 160

unfoldable pub part_count : Text → ℕ
part_count text = if ltb 160 (length text) then (length text + 152) / 153 else 1

unfoldable pub parts_info : Text → ℕ → Option (ℕ × ℕ)
unfolding part_count
parts_info text message_reference =
    if ltb 160 (length text) then some (message_reference, part_count text) else none

-- The text takes up the parts, and none of them is empty.
abbrev pub Fills : ℕ → ℕ → ℕ → Type 0
Fills size zero n = n ≡ 0
Fills size (suc left) n = (0 < n) × Fills size left (n - size)

-- Each of the parts has a character, and no more than `size` of them.
abbrev pub AllFit : ℕ → List Text → Type 0
AllFit size [] = Unit
AllFit size (part ∷ parts) = (0 < length part) × (length part ≤ size) × AllFit size parts

pub chunks_lem :
    (size left : ℕ) (text : Text)
    → 0 < size
    → Fills size left (length text)
    → (join (chunks size left text) ≡ text)
      × (length (chunks size left text) ≡ left)
      × AllFit size (chunks size left text)
unfolding chunks join
chunks_lem size zero [] pos fills = (refl, refl, tt)
chunks_lem size zero (x ∷ text) pos fills = absurd (omega arith)
chunks_lem size (suc left) text pos fills =
    let (joined, count, fit) =
      chunks_lem size left (drop size text) pos
        (subst (λ k. Fills size left k) (sym (length-drop size text)) fills.1) in
    (
      ap (λ (t : Text). take size text ++ t) joined ∙ take-append-drop size text,
      ap suc count,
      (omega (arith, length-take size text), omega (arith, length-take size text), fit),
    )

pub parts_Fills :
    (text : Text)
    → 0 < length text
    → length text ≤ 459
    → Fills (part_size text) (part_count text) (length text)
unfolding part_size part_count
parts_Fills text pos small = elim (Bool-cases (ltb 160 (length text))) [
  | inl e ↦ rw e (many ((length text + 152) / 153) (length text) (ground arith) (omega arith) refl)
  | inr e ↦ rw e (pos, ground arith)
]
  where
    many : (k n : ℕ) → 160 < n → n ≤ 459 → k ≡ (n + 152) / 153 → Fills 153 k n
    many zero n big small e = absurd (omega arith)
    many (suc zero) n big small e = absurd (omega arith)
    many (suc (suc zero)) n big small e = (omega arith, (omega arith, omega arith))
    many (suc (suc (suc zero))) n big small e =
        (omega arith, (omega arith, (omega arith, omega arith)))
    many (suc (suc (suc (suc k)))) n big small e = absurd (omega arith)
