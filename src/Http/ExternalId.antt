-- ===== src/Http/ExternalId.antt =====
-- internal/interface/http/handler.go, validExternalID. A string is its bytes. The loop over its runes is
-- one over its bytes: a byte below 128 is a rune of its own, and a byte from 128 on only stands in runes
-- from 128 on, which the loop refuses.
use inventory_reservation_sy.Base.{
  ℕ, ◌≤◌, ◌≡◌, ◌↔◌, ◌⊎◌, refl, ap, ◌∙◌, Bool, true, false, ◌&&◌, ◌||◌, not, ◌==◌, leb, ltb, [], ◌∷◌,
  if◌then◌else◌, All, length, arith,
}
use inventory_reservation_sy.Base.Text.{Text, text_eq, eq_iff}

-- unicode.IsSpace on the bytes below 128.
unfoldable pub is_space : ℕ → Bool
is_space c = (leb 9 c && leb c 13) || c == 32

-- The first byte, and the last, that are no spaces: strings.TrimSpace on ASCII text.
unfoldable pub trim_left : Text → Text
unfolding is_space
trim_left [] = []
trim_left (c ∷ t) = if is_space c then trim_left t else c ∷ t

unfoldable pub trim_right : Text → Text
unfolding is_space
trim_right [] = []
trim_right (c ∷ t) = elim (trim_right t) [
  | [] ↦ if is_space c then [] else c ∷ []
  | d ∷ u ↦ c ∷ d ∷ u
]

unfoldable pub trim_space : Text → Text
unfolding trim_left trim_right
trim_space t = trim_right (trim_left t)

unfoldable pub valid_char : ℕ → Bool
valid_char c =
    (leb b'a' c && leb c b'z')
    || ((leb b'A' c && leb c b'Z') || ((leb b'0' c && leb c b'9') || (c == b'-' || c == b'_')))

unfoldable pub valid_chars : Text → Bool
unfolding valid_char
valid_chars [] = true
valid_chars (c ∷ t) = if valid_char c then valid_chars t else false

unfoldable pub valid_external_id : Text → Bool
unfolding trim_space valid_chars
valid_external_id id =
    if text_eq id [] || (ltb 64 (length id) || not (text_eq (trim_space id) id))
    then false
    else valid_chars id

-- A character of an id is no space, so trimming does nothing.
valid_char-not_space : (c : ℕ) → valid_char c ≡ true → is_space c ≡ false
unfolding valid_char is_space
valid_char-not_space c h = ground arith

trim_right_valid : (t : Text) → valid_chars t ≡ true → trim_right t ≡ t
unfolding trim_right valid_chars
trim_right_valid [] h = refl
trim_right_valid (c ∷ []) h = ground (arith, valid_char-not_space c)
trim_right_valid (c ∷ d ∷ t) h = ground (arith, valid_char-not_space c, trim_right_valid (d ∷ t))

trim_left_valid : (t : Text) → valid_chars t ≡ true → trim_left t ≡ t
unfolding trim_left valid_chars
trim_left_valid [] h = refl
trim_left_valid (c ∷ t) h = ground (arith, valid_char-not_space c)

trim_space_valid : (t : Text) → valid_chars t ≡ true → trim_space t ≡ t
trim_space_valid t h =
    unfold trim_space in (ap trim_right (trim_left_valid t h) ∙ trim_right_valid t h)

-- A letter, a digit, '-' or '_'.
abbrev pub IsIdChar : ℕ → Type 0
IsIdChar c =
    ((97 ≤ c) × (c ≤ 122))
    ⊎ (((65 ≤ c) × (c ≤ 90)) ⊎ (((48 ≤ c) × (c ≤ 57)) ⊎ ((c ≡ 45) ⊎ (c ≡ 95))))

valid_char_iff : (c : ℕ) → (valid_char c ≡ true) ↔ IsIdChar c
unfolding valid_char
valid_char_iff c = ((λ h. ground arith), (λ h. ground arith))

valid_chars_iff : (t : Text) → (valid_chars t ≡ true) ↔ All IsIdChar t
unfolding valid_chars
valid_chars_iff [] = ((λ _. tt), (λ _. refl))
valid_chars_iff (c ∷ t) = (
  (λ h. ((valid_char_iff c).0 (ground arith), (valid_chars_iff t).0 (ground arith))),
  (λ h. ground (arith, (valid_char_iff c).1 h.0, (valid_chars_iff t).1 h.1)),
)

-- An id is accepted exactly if it has 1 to 64 bytes and each is a letter, a digit, '-' or '_': the test
-- against the trimmed text refuses nothing that these do not.
pub valid_external_id_iff :
    (id : Text)
    → (valid_external_id id ≡ true) ↔ (1 ≤ length id) × (length id ≤ 64) × All IsIdChar id
unfolding valid_external_id text_eq
valid_external_id_iff [] = ground arith
valid_external_id_iff (c ∷ t) =
    let id : Text = c ∷ t in
    (
      (λ h. ground (arith, (valid_chars_iff id).0)),
      (λ h.
          ground
            (arith, h, (valid_chars_iff id).1 h.2, trim_space_valid id, eq_iff (trim_space id) id)),
    )
