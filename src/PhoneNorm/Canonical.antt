-- ===== src/PhoneNorm/Canonical.antt =====
-- The form of the numbers that app/services/phone_norm.py returns, and normalising them again.
use ai_wa_chat_agent_be.Prelude.{
  ℕ, ◌≤◌, ◌≡◌, refl, ap, ◌∙◌, Bool, true, false, not, ◌&&◌, ◌||◌, Option, none, some, [], ◌∷◌, ◌++◌,
  All, arith, if◌then◌else◌, leb, ltb, ◌==◌, length, drop, map, or_else, Bool-cases, inl, inr,
}
use ai_wa_chat_agent_be.Prelude.Text.{
  Text, codes, is_empty, is_space, begins_with, lookup_text, text_eq, lower, lower_code, lstrip,
  rstrip, strip,
}
use ai_wa_chat_agent_be.PhoneNorm.{
  upper_code, country_code, strip_prefix, lstrip_zeros, plus_digits, national_digits,
  normalize_digits, normalize_e164, only_digits, only_digits_plus,
}

module _ (is_digit : ℕ → Bool) where
  abbrev pub AllDigits : Text → Type 0
  AllDigits t = All (λ c. is_digit c ≡ true) t

  -- A plus and eight to fifteen digits.
  abbrev pub IsE164 : Text → Type 0
  IsE164 u = (ds : Text) × (u ≡ b'+' ∷ ds) × AllDigits ds × (8 ≤ length ds) × (length ds ≤ 15)

module _ (is_digit : ℕ → Bool) (plus : is_digit b'+' ≡ false)
    (ink : (c : ℕ) → is_digit c ≡ true → is_space c ≡ false)
    (ascii : (c : ℕ) → b'0' ≤ c → c ≤ b'9' → is_digit c ≡ true) where
  only_digits-AllDigits : (t : Text) → AllDigits is_digit (only_digits is_digit t)
  only_digits-AllDigits [] = tt
  only_digits-AllDigits (c ∷ cs) = elim (Bool-cases (is_digit c)) [
    | inl yes' ↦ rw yes' (yes', only_digits-AllDigits cs)
    | inr no' ↦ rw no' (only_digits-AllDigits cs)
  ]

  AllDigits-append :
      (s t : Text) → AllDigits is_digit s → AllDigits is_digit t → AllDigits is_digit (s ++ t)
  AllDigits-append [] t hs ht = ht
  AllDigits-append (c ∷ cs) t (h, hs) ht = (h, AllDigits-append cs t hs ht)

  only_digits-kept : (t : Text) → AllDigits is_digit t → only_digits is_digit t ≡ t
  only_digits-kept [] h = refl
  only_digits-kept (c ∷ cs) (h, hs) = rw (h, only_digits-kept cs hs) refl

  only_digits_plus-kept : (t : Text) → AllDigits is_digit t → only_digits_plus is_digit t ≡ t
  only_digits_plus-kept [] h = refl
  only_digits_plus-kept (c ∷ cs) (h, hs) = rw (h, only_digits_plus-kept cs hs) refl

  rstrip-AllDigits : (t : Text) → AllDigits is_digit t → rstrip t ≡ t
  unfolding rstrip
  rstrip-AllDigits [] h = refl
  rstrip-AllDigits (c ∷ cs) (h, hs) = rw (ink c h, rstrip-AllDigits cs hs) refl

  plus_digits-IsE164 :
      (ds u : Text) → AllDigits is_digit ds → plus_digits ds ≡ some u → IsE164 is_digit u
  unfolding plus_digits
  plus_digits-IsE164 ds u h e = elim (Bool-cases (ltb (length ds) 8 || ltb 15 (length ds))) [
    | inl short ↦ absurd (let none_some : none ≡ some u = rw short at e in cc)
    | inr fits ↦
        let same : some (b'+' ∷ ds) ≡ some u = rw fits at e in
        (ds, cc same, h, ground arith, ground arith)
  ]

  plus-strip : (ds : Text) → AllDigits is_digit ds → strip (b'+' ∷ ds) ≡ b'+' ∷ ds
  unfolding strip lstrip rstrip is_space
  plus-strip ds h = ap (λ t. b'+' ∷ t) (rstrip-AllDigits ds h)

  plus-strip_prefix : (ds : Text) → strip_prefix (b'+' ∷ ds) ≡ b'+' ∷ ds
  unfolding strip_prefix begins_with lower lower_code
  plus-strip_prefix ds = refl

  plus-only_digits_plus :
      (ds : Text) → AllDigits is_digit ds → only_digits_plus is_digit (b'+' ∷ ds) ≡ b'+' ∷ ds
  plus-only_digits_plus ds h = rw (plus, only_digits_plus-kept ds h) refl

  plus-only_digits : (ds : Text) → AllDigits is_digit ds → only_digits is_digit (b'+' ∷ ds) ≡ ds
  plus-only_digits ds h = rw plus (only_digits-kept ds h)

  plus_digits-kept :
      (ds : Text) → 8 ≤ length ds → length ds ≤ 15 → plus_digits ds ≡ some (b'+' ∷ ds)
  unfolding plus_digits
  plus_digits-kept ds lo hi = ground arith

  normalize_digits-plus :
      (region ds : Text)
      → AllDigits is_digit ds
      → 8 ≤ length ds
      → length ds ≤ 15
      → normalize_digits is_digit region (b'+' ∷ ds) ≡ some (b'+' ∷ ds)
  unfolding normalize_digits begins_with
  normalize_digits-plus region ds h lo hi =
      ap plus_digits (plus-only_digits ds h) ∙ plus_digits-kept ds lo hi

  normalize_e164-kept :
      (region u : Text) → IsE164 is_digit u → normalize_e164 is_digit region (some u) ≡ some u
  unfolding normalize_e164
  normalize_e164-kept region u (ds, e, h, lo, hi) =
      rw (e, plus-strip ds h)
        (ap (λ t. normalize_digits is_digit region (only_digits_plus is_digit t))
            (plus-strip_prefix ds)
          ∙ ap (normalize_digits is_digit region) (plus-only_digits_plus ds h)
          ∙ normalize_digits-plus region ds h lo hi)

  drop-AllDigits : (t : Text) → AllDigits is_digit t → AllDigits is_digit (drop 1 t)
  drop-AllDigits [] h = tt
  drop-AllDigits (c ∷ cs) (h, hs) = hs

  lstrip_zeros-AllDigits : (t : Text) → AllDigits is_digit t → AllDigits is_digit (lstrip_zeros t)
  unfolding lstrip_zeros
  lstrip_zeros-AllDigits [] h = tt
  lstrip_zeros-AllDigits (c ∷ cs) (h, hs) = elim (Bool-cases (c == b'0')) [
    | inl zero' ↦ rw zero' (lstrip_zeros-AllDigits cs hs)
    | inr other ↦ rw other (h, hs)
  ]

  chosen-AllDigits :
      (gb uk us ca : Bool)
      → AllDigits is_digit (
          or_else
            (if gb
              then some (codes "44")
              else if uk
              then some (codes "44")
              else if us
              then some (codes "1")
              else if ca
              then some (codes "1")
              else none)
            (codes "44"))
  chosen-AllDigits gb uk us ca =
      let four = ascii b'4' (omega arith) (omega arith) in
      let one = ascii b'1' (omega arith) (omega arith) in go gb uk us ca four one
    where
      go :
          (gb uk us ca : Bool)
          → is_digit b'4' ≡ true
          → is_digit b'1' ≡ true
          → AllDigits is_digit (
              or_else
                (if gb
                  then some (codes "44")
                  else if uk
                  then some (codes "44")
                  else if us
                  then some (codes "1")
                  else if ca
                  then some (codes "1")
                  else none)
                (codes "44"))
      go true uk us ca f o = (f, (f, tt))
      go false true us ca f o = (f, (f, tt))
      go false false true ca f o = (o, tt)
      go false false false true f o = (o, tt)
      go false false false false f o = (f, (f, tt))

  country_code-AllDigits : (region : Text) → AllDigits is_digit (country_code region)
  unfolding country_code lookup_text
  country_code-AllDigits region =
      let R = map upper_code region in
      chosen-AllDigits (text_eq R (codes "GB")) (text_eq R (codes "UK")) (text_eq R (codes "US"))
        (text_eq R (codes "CA"))

  national_digits-AllDigits :
      (cc' ds : Text)
      → AllDigits is_digit cc'
      → AllDigits is_digit ds
      → AllDigits is_digit (national_digits cc' ds)
  unfolding national_digits
  national_digits-AllDigits cc' ds hc h = elim (Bool-cases (begins_with (codes "0") ds)) [
    | inl trunk ↦ rw trunk (AllDigits-append cc' (drop 1 ds) hc (drop-AllDigits ds h))
    | inr full ↦ elim (Bool-cases (not (begins_with cc' ds) && leb (length ds) 10)) [
      | inl short ↦
          rw (full, short) (AllDigits-append cc' (lstrip_zeros ds) hc (lstrip_zeros-AllDigits ds h))
      | inr long ↦ rw (full, long) h
    ]
  ]

  normalize_digits-IsE164 :
      (region s u : Text) → normalize_digits is_digit region s ≡ some u → IsE164 is_digit u
  unfolding normalize_digits
  normalize_digits-IsE164 region s u e = elim (Bool-cases (is_empty s)) [
    | inl blank ↦ absurd (let none_some : none ≡ some u = rw blank at e in cc)
    | inr text ↦ elim (Bool-cases (begins_with (codes "+") s)) [
      | inl signed ↦
          plus_digits-IsE164 (only_digits is_digit s) u (only_digits-AllDigits s)
            (rw (text, signed) at e)
      | inr bare ↦ elim (Bool-cases (is_empty (only_digits is_digit s))) [
        | inl void ↦ absurd (let none_some : none ≡ some u = rw (text, bare, void) at e in cc)
        | inr some' ↦
            plus_digits-IsE164 (national_digits (country_code region) (only_digits is_digit s)) u
              (national_digits-AllDigits (country_code region) (only_digits is_digit s)
                (country_code-AllDigits region) (only_digits-AllDigits s))
              (rw (text, bare, some') at e)
      ]
    ]
  ]

  normalize_e164-IsE164 :
      (region raw u : Text) → normalize_e164 is_digit region (some raw) ≡ some u → IsE164 is_digit u
  unfolding normalize_e164
  normalize_e164-IsE164 region raw u e = elim (Bool-cases (is_empty (strip raw))) [
    | inl blank ↦ absurd (let none_some : none ≡ some u = rw blank at e in cc)
    | inr text ↦
        normalize_digits-IsE164 region (only_digits_plus is_digit (strip_prefix (strip raw))) u
          (rw text at e)
  ]

  -- What is returned is a plus and eight to fifteen digits, and is returned unchanged when it is
  -- normalised again, for any region.
  pub normalize_e164_idem :
      (region other : Text) (raw : Option Text) (u : Text)
      → normalize_e164 is_digit region raw ≡ some u
      → IsE164 is_digit u × (normalize_e164 is_digit other (some u) ≡ some u)
  unfolding normalize_e164
  normalize_e164_idem region other none u e = absurd (cc e)
  normalize_e164_idem region other (some raw) u e =
      let shape = normalize_e164-IsE164 region raw u e in (shape, normalize_e164-kept other u shape)
