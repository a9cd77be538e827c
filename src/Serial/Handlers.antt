-- ===== src/Serial/Handlers.antt =====
-- src/modem_serial.h: registerEventHandler and deRegisterEventHandler. A handler is known by its
-- address, a number.
use native.Mathlib.Numerals.{unary_clauses}
use a76xx.Prelude.{
  ap, inl, inr, Bool-cases, ℕ, zero, suc, ◌+◌, ◌-◌, ◌%◌, ◌<◌, ◌≤◌, ◌==◌, if◌then◌else◌, List, [],
  ◌∷◌, ◌++◌, length, length-set, get_or, set, take, ◌∙◌, ◌≡◌, refl, arith,
}

-- `_event_handlers`, an array of A76XX_MAX_EVENT_HANDLERS elements, of which the first
-- `_num_event_handlers` are in use.
pub record Handlers : Type 0 where
  pub table : List ℕ
  pub num : ℕ

-- An element outside of the array reads as `junk`, and a write outside of it is lost.
pub register_event_handler : Handlers → ℕ → Handlers
register_event_handler h handler = record {
  table = set h.table h.num handler;
  num = (h.num + 1) % 256;
}

-- The inner loop, from `j` on, with `left` rounds to go.
pub shift_loop : ℕ → ℕ → ℕ → List ℕ → List ℕ
shift_loop junk j zero table = table
shift_loop junk j (suc left) table =
    shift_loop junk (suc j) left (set table j (get_or table (suc j) junk))

-- The outer loop, from `i` on, with `left` rounds to go.
pub search_loop : ℕ → ℕ → ℕ → ℕ → Handlers → Handlers
search_loop junk handler i zero h = h
search_loop junk handler i (suc left) h =
    if get_or h.table i junk == handler
    then record { table = shift_loop junk i (h.num - i) h.table; num = h.num - 1 }
    else search_loop junk handler (suc i) left h

pub de_register_event_handler : ℕ → Handlers → ℕ → Handlers
de_register_event_handler junk h handler = search_loop junk handler 0 h.num h

-- The handlers in use, in the order of their registration.
abbrev pub active : Handlers → List ℕ
active h = take h.num h.table

-- The list without the first element that is `handler`.
unfoldable pub erase : ℕ → List ℕ → List ℕ
erase handler [] = []
erase handler (x ∷ xs) = if x == handler then xs else x ∷ erase handler xs

shift_cons :
    (junk x j left : ℕ) (table : List ℕ)
    → shift_loop junk (suc j) left (x ∷ table) ≡ x ∷ shift_loop junk j left table
unfolding shift_loop
shift_cons junk x j zero table = refl
shift_cons junk x j (suc left) table =
    shift_cons junk x (suc j) left (set table j (get_or table (suc j) junk))

shift_front :
    (junk n x : ℕ) (table : List ℕ)
    → n ≤ length table
    → take n (shift_loop junk 0 (suc n) (x ∷ table)) ≡ take n table
unfolding shift_loop
shift_front junk zero x table h = refl
shift_front junk (suc n) x [] h = absurd (omega arith)
shift_front junk (suc n) x (y ∷ table) h =
    rw (shift_cons junk y 0 (suc n) (y ∷ table))
      (ap (λ t. y ∷ t) (shift_front junk n y table (omega arith)))

-- One more handler in front.
abbrev behind : ℕ → Handlers → Handlers
behind x h = record { table = x ∷ h.table; num = suc h.num }

search_cons :
    (junk handler x i left num : ℕ) (table : List ℕ)
    → i + left ≤ num
    → search_loop junk handler (suc i) left (record { table = x ∷ table; num = suc num })
      ≡ behind x (search_loop junk handler i left (record { table = table; num = num }))
unfolding search_loop
search_cons junk handler x i zero num table h = refl
search_cons junk handler x i (suc left) num table h =
    elim (Bool-cases (get_or table i junk == handler)) [
      | inl found ↦
          let e : suc (num - 1) ≡ suc num - 1 = omega arith in
          let d : suc num - suc i ≡ num - i = omega arith in
          rw found (rw (d, shift_cons junk x i (num - i) table, e) refl)
      | inr other ↦ rw other (search_cons junk handler x (suc i) left num table (omega arith))
    ]

search_lem :
    (junk handler n : ℕ) (table : List ℕ)
    → n ≤ length table
    → active (search_loop junk handler 0 n (record { table = table; num = n }))
      ≡ erase handler (take n table)
unfolding search_loop erase
search_lem junk handler zero table h = refl
search_lem junk handler (suc n) [] h = absurd (omega arith)
search_lem junk handler (suc n) (x ∷ table) h = elim (Bool-cases (x == handler)) [
  | inl found ↦ rw found (simp unary_clauses (shift_front junk n x table (omega arith)))
  | inr other ↦ rw other (
      rw (search_cons junk handler x 0 n n table (omega arith))
        (ap (λ t. x ∷ t) (search_lem junk handler n table (omega arith))))
]

-- Deregistering removes the first registration of the handler, when there is one, and keeps the
-- others in their order, for any number of handlers that the array can hold.
pub de_register_event_handler_lem :
    (junk handler : ℕ) (h : Handlers)
    → h.num ≤ length h.table
    → active (de_register_event_handler junk h handler) ≡ erase handler (active h)
unfolding de_register_event_handler
de_register_event_handler_lem junk handler h fits = search_lem junk handler h.num h.table fits

take-set : (n v : ℕ) (xs : List ℕ) → n < length xs → take (suc n) (set xs n v) ≡ take n xs ++ v ∷ []
take-set n v [] h = absurd (omega arith)
take-set zero v (x ∷ xs) h = refl
take-set (suc n) v (x ∷ xs) h = ap (λ t. x ∷ t) (take-set n v xs (omega arith))

-- A handler that is registered while the array has room comes behind those in use.
pub register_event_handler_lem :
    (h : Handlers) (handler : ℕ)
    → h.num < length h.table
    → length h.table ≤ 255
    → active (register_event_handler h handler) ≡ active h ++ handler ∷ []
unfolding register_event_handler
register_event_handler_lem h handler free small =
    let e : (h.num + 1) % 256 ≡ suc h.num = omega arith in
    rw e (take-set h.num handler h.table free)

length-shift_loop :
    (left junk j : ℕ) (table : List ℕ) → length (shift_loop junk j left table) ≡ length table
unfolding shift_loop
length-shift_loop zero junk j table = refl
length-shift_loop (suc left) junk j table =
    length-shift_loop left junk (suc j) (set table j (get_or table (suc j) junk))
    ∙ length-set table j (get_or table (suc j) junk)

search_loop_bounds :
    (left junk handler i : ℕ) (h : Handlers)
    → (length (search_loop junk handler i left h).table ≡ length h.table)
      × ((search_loop junk handler i left h).num ≤ h.num)
unfolding search_loop
search_loop_bounds zero junk handler i h = (refl, omega arith)
search_loop_bounds (suc left) junk handler i h =
    elim (Bool-cases (get_or h.table i junk == handler)) [
      | inl found ↦ rw found (length-shift_loop (h.num - i) junk i h.table, omega arith)
      | inr other ↦ rw other (search_loop_bounds left junk handler (suc i) h)
    ]

-- Deregistering a handler leaves the array its size, and no more handlers in use.
pub de_register_event_handler_bounds :
    (junk handler : ℕ) (h : Handlers)
    → (length (de_register_event_handler junk h handler).table ≡ length h.table)
      × ((de_register_event_handler junk h handler).num ≤ h.num)
unfolding de_register_event_handler
de_register_event_handler_bounds junk handler h = search_loop_bounds h.num junk handler 0 h

pub register_event_handler_bounds :
    (h : Handlers) (handler : ℕ)
    → h.num < 255
    → (length (register_event_handler h handler).table ≡ length h.table)
      × ((register_event_handler h handler).num ≡ suc h.num)
unfolding register_event_handler
register_event_handler_bounds h handler small = (length-set h.table h.num handler, omega arith)
