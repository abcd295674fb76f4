-- ===== src/Calendar/Windows.antt =====
-- What `split_into_trading_windows` returns.
use Prim.Native.String.{String}
use ai_trading_backend.Common.{
  ℕ, zero, suc, ◌+◌, ◌-◌, ◌/◌, ◌%◌, ◌≤◌, ◌<◌, ◌≡◌, ◌↔◌, refl, ◌∙◌, ◌⊎◌, inl, inr, Bool, true, false,
  not, ◌&&◌, Option, none, some, List, [], ◌∷◌, ltb, leb, arith, Bool-cases, ltb→lt,
}
use native.Mathlib.Decide.{dec_lt}
use ai_trading_backend.Calendar.{
  Metadata, weekday, hour_of, fx_session_bounds, in_weekly_window, in_rollover, holiday_at,
  is_valid_at, validate_timestamp, compute_market_window, window_end_from, split_from,
  split_into_trading_windows,
}

abbrev none_hit : Option String → Bool
none_hit none = true
none_hit (some name) = false

-- Two times in the same hour.
abbrev SameHour : ℕ → ℕ → Type 0
SameHour t u = t / 3600 ≡ u / 3600

weekday-hour : (t u : ℕ) → SameHour t u → weekday t ≡ weekday u
unfolding weekday
weekday-hour t u h = omega (arith, h)

hour_of-hour : (t u : ℕ) → SameHour t u → hour_of t ≡ hour_of u
unfolding hour_of
hour_of-hour t u h = omega (arith, h)

day-hour : (t u : ℕ) → SameHour t u → t / 86400 ≡ u / 86400
day-hour t u h = omega (arith, h)

fx_session_bounds-hour : (t u : ℕ) → SameHour t u → fx_session_bounds t ≡ fx_session_bounds u
unfolding fx_session_bounds
fx_session_bounds-hour t u h = rw (weekday-hour t u h, day-hour t u h) refl

-- The bounds of a session lie on whole hours.
bounds-aligned :
    (t : ℕ) → ((fx_session_bounds t).0 % 3600 ≡ 0) × ((fx_session_bounds t).1 % 3600 ≡ 0)
unfolding fx_session_bounds
bounds-aligned t = omega arith

leb-hour : (a t u : ℕ) → a % 3600 ≡ 0 → SameHour t u → leb a t ≡ leb a u
leb-hour a t u e h = ground arith

ltb-hour : (a t u : ℕ) → a % 3600 ≡ 0 → SameHour t u → ltb t a ≡ ltb u a
ltb-hour a t u e h = ground arith

in_weekly_window-hour : (t u : ℕ) → SameHour t u → in_weekly_window t ≡ in_weekly_window u
unfolding in_weekly_window
in_weekly_window-hour t u h =
    rw
      (
        fx_session_bounds-hour t u h,
        leb-hour (fx_session_bounds u).0 t u (bounds-aligned u).0 h,
        ltb-hour (fx_session_bounds u).1 t u (bounds-aligned u).1 h,
      )
      refl

in_rollover-hour : (t u : ℕ) → SameHour t u → in_rollover t ≡ in_rollover u
unfolding in_rollover
in_rollover-hour t u h = rw (weekday-hour t u h, hour_of-hour t u h) refl

-- The time lies in one of the windows.
abbrev pub Covered : ℕ → List (ℕ × ℕ) → Type 0
Covered t [] = ⊥
Covered t ((opening, closing) ∷ windows) = ((opening ≤ t) × (t < closing)) ⊎ Covered t windows

-- The windows come in order, none empty, within the bounds, and none reaches into the next.
abbrev pub Between : ℕ → ℕ → List (ℕ × ℕ) → Type 0
Between start stop [] = Unit
Between start stop ((opening, closing) ∷ windows) =
    (start ≤ opening) × (opening < closing) × (closing ≤ stop) × Between closing stop windows

Covered-from :
    (start stop t : ℕ) (windows : List (ℕ × ℕ))
    → Between start stop windows
    → Covered t windows
    → start ≤ t
Covered-from start stop t [] h c = absurd c
Covered-from start stop t ((opening, closing) ∷ windows) h (inl c) = omega arith
Covered-from start stop t ((opening, closing) ∷ windows) (low, some_time, high, rest) (inr c) =
    omega (arith, Covered-from closing stop t windows rest c)

Between-earlier :
    (early start stop : ℕ) (windows : List (ℕ × ℕ))
    → early ≤ start
    → Between start stop windows
    → Between early stop windows
Between-earlier early start stop [] h b = tt
Between-earlier early start stop ((opening, closing) ∷ windows) h b = (omega arith, b.1, b.2, b.3)

module _ (iso : ℕ → String) (m : Metadata) where
  holiday_at-hour : (t u : ℕ) → SameHour t u → holiday_at iso m t ≡ holiday_at iso m u
  unfolding holiday_at
  holiday_at-hour t u h = rw (day-hour t u h) refl

  is_valid_at-parts :
      (t : ℕ)
      → is_valid_at iso m t
        ≡ (in_weekly_window t && (not (in_rollover t) && none_hit (holiday_at iso m t)))
  unfolding is_valid_at validate_timestamp compute_market_window
  is_valid_at-parts t = ground arith

  is_valid_at-hour : (t u : ℕ) → SameHour t u → is_valid_at iso m t ≡ is_valid_at iso m u
  is_valid_at-hour t u h =
      rw
        (
          is_valid_at-parts t,
          is_valid_at-parts u,
          in_weekly_window-hour t u h,
          in_rollover-hour t u h,
          holiday_at-hour t u h,
        )
        refl

  -- Where a window ends: at the end of the range, or at a whole hour that is not valid.
  record IsEnd (stop probe ending : ℕ) : Type 0 where
    later : probe < ending
    within : ending ≤ stop
    aligned : (ending % 3600 ≡ 0) ⊎ (stop ≤ ending)
    valid : (t : ℕ) → probe ≤ t → t < ending → is_valid_at iso m t ≡ true

  hour_valid :
      (probe t : ℕ)
      → probe % 3600 ≡ 0
      → is_valid_at iso m probe ≡ true
      → probe ≤ t
      → t < probe + 3600
      → is_valid_at iso m t ≡ true
  hour_valid probe t e v low high = is_valid_at-hour t probe (omega arith) ∙ v

  window_end_from-IsEnd :
      (fuel stop probe : ℕ)
      → probe < stop
      → stop - probe ≤ fuel
      → probe % 3600 ≡ 0
      → is_valid_at iso m probe ≡ true
      → (ending : ℕ) × (window_end_from iso m fuel stop probe ≡ some ending)
        × IsEnd stop probe ending
  unfolding window_end_from
  window_end_from-IsEnd zero stop probe lt enough e v = absurd (omega arith)
  window_end_from-IsEnd (suc fuel) stop probe lt enough e v =
      let next = probe + 3600 in
      elim (Bool-cases (leb stop next)) [
        | inl last ↦ (
          stop,
          rw last refl,
          record {
            later = lt;
            within = omega arith;
            aligned = inr (omega arith);
            valid = λ t low high. hour_valid probe t e v low (ground arith);
          },
        )
        | inr more ↦ (elim (Bool-cases (is_valid_at iso m next)) [
          | inr closed ↦ (
            next,
            rw (more, closed) refl,
            record {
              later = omega arith;
              within = ground arith;
              aligned = inl (omega arith);
              valid = λ t low high. hour_valid probe t e v low high;
            },
          )
          | inl goes_on ↦
              let (ending, found, h) =
                window_end_from-IsEnd fuel stop next (ground arith) (omega arith) (omega arith)
                  goes_on in
              (
                ending,
                rw (more, goes_on) found,
                record {
                  later = omega (arith, h.later);
                  within = h.within;
                  aligned = h.aligned;
                  valid = λ t low high. elim (dec_lt t next) [
                    | yes p ↦ hour_valid probe t e v low p
                    | no p ↦ h.valid t (omega arith) high
                  ];
                },
              )
        ])
      ]

  -- What the outer loop is to return from a time on.
  record IsSplit (current stop : ℕ) (windows : List (ℕ × ℕ)) : Type 0 where
    between : Between current stop windows
    exact : (t : ℕ) → current ≤ t → t < stop → (is_valid_at iso m t ≡ true) ↔ Covered t windows

  -- A valid window before the rest.
  IsSplit-window :
      (current stop ending : ℕ) (windows : List (ℕ × ℕ))
      → IsEnd stop current ending
      → IsSplit ending stop windows
      → IsSplit current stop ((current, ending) ∷ windows)
  IsSplit-window current stop ending windows h s = record {
    between = (omega arith, h.later, h.within, s.between);
    exact = λ t low high. elim (dec_lt t ending) [
      | yes p ↦ ((λ v. inl (low, p)), (λ c. h.valid t low p))
      | no p ↦ (
        (λ v. inr ((s.exact t (omega arith) high).0 v)),
        elim [ inl c ↦ absurd (p c.1) | inr c ↦ (s.exact t (omega arith) high).1 c ],
      )
    ];
  }

  -- An hour that is not valid before the rest.
  IsSplit-skip :
      (current stop : ℕ) (windows : List (ℕ × ℕ))
      → current % 3600 ≡ 0
      → is_valid_at iso m current ≡ false
      → IsSplit (current + 3600) stop windows
      → IsSplit current stop windows
  IsSplit-skip current stop windows e closed s = record {
    between = Between-earlier current (current + 3600) stop windows (omega arith) s.between;
    exact = λ t low high. elim (dec_lt t (current + 3600)) [
      | yes p ↦ (
        (λ v. absurd (cc (is_valid_at-hour t current (omega arith), v, closed))),
        (λ c. absurd (omega (arith, Covered-from (current + 3600) stop t windows s.between c))),
      )
      | no p ↦ s.exact t (omega arith) high
    ];
  }

  split_from-IsSplit :
      (fuel stop current : ℕ)
      → stop - current ≤ fuel
      → (current % 3600 ≡ 0) ⊎ (stop ≤ current)
      → (windows : List (ℕ × ℕ)) × (split_from iso m fuel stop current ≡ some windows)
        × IsSplit current stop windows
  unfolding split_from
  split_from-IsSplit zero stop current enough e =
      ([], ground arith, record { between = tt; exact = λ t low high. absurd (omega arith) })
  split_from-IsSplit (suc fuel) stop current enough e = elim (Bool-cases (ltb current stop)) [
    | inr over ↦
        ([], rw over refl, record { between = tt; exact = λ t low high. absurd (ground arith) })
    | inl under ↦
        let lt = ltb→lt current stop under in
        let aligned : current % 3600 ≡ 0 = omega arith in
        (elim (Bool-cases (is_valid_at iso m current)) [
          | inl valid ↦
              let (ending, found, h) =
                window_end_from-IsEnd (suc fuel) stop current lt enough aligned valid in
              let (windows, rest, s) =
                split_from-IsSplit fuel stop ending (omega (arith, h.later)) h.aligned in
              (
                (current, ending) ∷ windows,
                rw (under, valid, found, rest) refl,
                IsSplit-window current stop ending windows h s,
              )
          | inr closed ↦
              let (windows, rest, s) =
                split_from-IsSplit fuel stop (current + 3600) (omega arith) (inl (omega arith)) in
              (windows, rw (under, closed) rest, IsSplit-skip current stop windows aligned closed s)
        ])
  ]

  -- From a start on the hour, `split_into_trading_windows` ends, with windows that come in order
  -- within the range, none empty and none reaching into the next, and a time of the range lies in one
  -- of them exactly when `validate_timestamp` calls it valid.
  pub split_into_trading_windows-exact :
      (start stop : ℕ)
      → start % 3600 ≡ 0
      → (windows : List (ℕ × ℕ)) × (split_into_trading_windows iso m start stop ≡ some windows)
        × Between start stop windows
        × ((t : ℕ)
            → start ≤ t
            → t < stop
            → ((validate_timestamp iso m t).is_valid ≡ true) ↔ Covered t windows)
  unfolding split_into_trading_windows is_valid_at
  split_into_trading_windows-exact start stop e =
      let (windows, found, s) =
        split_from-IsSplit (stop - start) stop start (omega arith) (inl e) in
      (windows, found, s.between, s.exact)
