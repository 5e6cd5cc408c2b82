-- ===== src/RateLimit/Window.antt =====
-- How many requests of one window pass.
use ai_wa_chat_agent_be.Prelude.{
  ℕ, suc, ◌+◌, ◌-◌, ◌≤◌, ◌<◌, ◌≡◌, refl, ap, ◌∙◌, true, false, ◌||◌, List, [], ◌∷◌, arith, min,
  length, leb, ◌==◌,
}
use ai_wa_chat_agent_be.RateLimit.{Redis, check_rate_limit, passes}

-- The times do not decrease, from `from` on, and none is after `h`.
abbrev pub InOrder : ℕ → ℕ → List ℕ → Type 0
InOrder from h [] = Unit {0}
InOrder from h (t ∷ ts) = (from ≤ t) × (t ≤ h) × InOrder t h ts

module _ (R : Redis) where
  check-counted :
      (limit window now : ℕ) (s : R.State) (n : ℕ)
      → 0 < limit
      → 0 < window
      → R.value now (R.incr now s) ≡ suc n
      → (suc n == 1) ≡ false
      → check_rate_limit R limit window now s ≡ (R.incr now s, leb (suc n) limit)
  unfolding check_rate_limit
  check-counted limit window now s n lp wp v later =
      let positive : (limit == 0 || window == 0) ≡ false = ground arith in
      rw (positive, v, later) refl

  check-first :
      (limit window now : ℕ) (s : R.State)
      → 0 < limit
      → 0 < window
      → R.value now (R.incr now s) ≡ 1
      → check_rate_limit R limit window now s ≡ (R.expire now window (R.incr now s), true)
  unfolding check_rate_limit
  check-first limit window now s lp wp v =
      let positive : (limit == 0 || window == 0) ≡ false = ground arith in
      let one : leb 1 limit ≡ true = ground arith in rw (positive, v, one) refl

  -- A key that has counted already, through the rest of its window.
  passes-counted :
      (limit window h from : ℕ) (times : List ℕ) (s : R.State) (n : ℕ)
      → 0 < limit
      → 0 < window
      → InOrder from h times
      → R.Lives h s
      → R.value from s ≡ suc n
      → from ≤ h
      → passes R limit window times s ≡ min (length times) (limit - suc n)
  unfolding passes
  passes-counted limit window h from [] s n lp wp o live v le = omega arith
  passes-counted limit window h from (t ∷ ts) s n lp wp (ft, th, o) live v le =
      let at : R.value t s ≡ suc n = R.value-Lives h from t s ft th live ∙ v in
      let counted : R.value t (R.incr t s) ≡ suc (suc n) = R.incr-value t s ∙ ap suc at in
      let rest =
        passes-counted limit window h t ts (R.incr t s) (suc n) lp wp o (R.incr-Lives h t s th live)
          counted th in
      rw (check-counted limit window t s (suc n) lp wp counted (ground arith), passes)
        (ground (arith, rest))

  -- A key that is absent or expired at the first request; all requests come within the window that
  -- this request begins, in the order of their times. With a limit and a window that are positive,
  -- exactly the first requests pass, as many as the limit says.
  pub passes-window :
      (limit window first : ℕ) (times : List ℕ) (s : R.State)
      → 0 < limit
      → 0 < window
      → R.value first s ≡ 0
      → InOrder first (first + window - 1) times
      → passes R limit window (first ∷ times) s ≡ min (suc (length times)) limit
  unfolding passes
  passes-window limit window first times s lp wp v o =
      let counted : R.value first (R.incr first s) ≡ 1 = R.incr-value first s ∙ ap suc v in
      let begun = R.expire first window (R.incr first s) in
      let rest =
        passes-counted limit window (first + window - 1) first times begun 0 lp wp o
          (R.expire-Lives (first + window - 1) first window (R.incr first s)
            (rw counted (omega arith)) (omega arith))
          (R.expire-value first window (R.incr first s) wp ∙ counted) (omega arith) in
      rw (check-first limit window first s lp wp counted, passes) (ground (arith, rest))
