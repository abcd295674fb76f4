-- ===== src/Payments/Safe.antt =====
-- What holds of each event of a run at the time it happens: a logic of computations that leave a trace.
use ai_trading_backend.Common.{
  In, ◌≡◌, refl, inl, inr, Bool, true, false, List, [], ◌∷◌, ◌++◌, All, if◌then◌else◌,
}
use ai_trading_backend.Payments.Trace.{
  Error, Outcome, value, raised, Event, Trace, M, then_at, recover_at, ◌>>=◌, return, raise, call,
  try_except,
}

abbrev pub Knows : List Event → Trace → Type 0
Knows facts t = All (λ e. In e t) facts

-- `Ready e t`: the event `e` may happen after `t`.
module _ (Ready : Event → Trace → Type 0) where
  abbrev pub Justified : Trace → Type 0
  Justified [] = Unit {0}
  Justified (e ∷ t) = Ready e t × Justified t

  abbrev pub Learns : {A : Type 0} → (A → List Event) → Trace × Outcome A → Type 0
  Learns G (t, value a) = Knows (G a) t
  Learns G (t, raised e) = Unit {0}

  -- A computation that is run where some events are known to have happened, does only what may happen, and
  -- lets more events be known.
  pub record Safe {A : Type 0} (facts : List Event) (m : M A) (G : A → List Event) : Type 0 where
    pub run :
        (t : Trace)
        → Knows facts t
        → Justified t
        → Justified (m t).0 × ((e : Event) → In e t → In e (m t).0) × Learns G (m t)

  Knows-grows :
      (facts : List Event) (t t' : Trace)
      → ((e : Event) → In e t → In e t')
      → Knows facts t
      → Knows facts t'
  Knows-grows [] t t' grow known = tt
  Knows-grows (f ∷ facts) t t' grow known = (grow f known.0, Knows-grows facts t t' grow known.1)

  Knows-append : (fs gs : List Event) (t : Trace) → Knows fs t → Knows gs t → Knows (fs ++ gs) t
  Knows-append [] gs t known more = more
  Knows-append (f ∷ fs) gs t known more = (known.0, Knows-append fs gs t known.1 more)

  pub Knows-split : (fs gs : List Event) (t : Trace) → Knows (fs ++ gs) t → Knows fs t × Knows gs t
  Knows-split [] gs t known = (tt, known)
  Knows-split (f ∷ fs) gs t known =
      let rest = Knows-split fs gs t known.1 in ((known.0, rest.0), rest.1)

  pub return-Safe :
      {A : Type 0} (facts : List Event) (a : A) (G : A → List Event)
      → ((t : Trace) → Knows facts t → Knows (G a) t)
      → Safe facts (return a) G
  unfolding return
  return-Safe facts a G h = record { run = λ t known ok. (ok, λ e seen. seen, h t known) }

  pub raise-Safe :
      {A : Type 0} (facts : List Event) (e : Error) (G : A → List Event) → Safe facts (raise e) G
  unfolding raise
  raise-Safe facts e G = record { run = λ t known ok. (ok, λ e seen. seen, tt) }

  -- Nothing follows an error.
  pub raise->>=-Safe :
      {A B : Type 0} (facts : List Event) (e : Error) (f : A → M B) (G : B → List Event)
      → Safe facts (raise e >>= f) G
  unfolding raise ◌>>=◌
  raise->>=-Safe facts e f G = record { run = λ t known ok. (ok, λ x seen. seen, tt) }

  pub return->>=-Safe :
      {A B : Type 0} (facts : List Event) (a : A) (f : A → M B) (G : B → List Event)
      → Safe facts (f a) G
      → Safe facts (return a >>= f) G
  unfolding return ◌>>=◌
  return->>=-Safe facts a f G h = h

  Learns-call :
      {A : Type 0} (event : Outcome A → Event) (r : Outcome A) (t : Trace)
      → Learns (λ a. event (value a) ∷ []) (event r ∷ t, r)
  Learns-call event (value a) t = (inl refl, tt)
  Learns-call event (raised e) t = tt

  pub call-Safe :
      {A : Type 0} (facts : List Event) (ask : Trace → Outcome A) (event : Outcome A → Event)
      → ((t : Trace) → Knows facts t → Ready (event (ask t)) t)
      → Safe facts (call ask event) (λ a. event (value a) ∷ [])
  unfolding call
  call-Safe facts ask event may = record {
    run = λ t known ok. ((may t known, ok), λ e seen. inr seen, Learns-call event (ask t) t);
  }

  Runs : {A : Type 0} → (A → List Event) → Trace → Trace × Outcome A → Type 0
  Runs G t p = Justified p.0 × ((e : Event) → In e t → In e p.0) × Learns G p

  then_at-Runs :
      {A B : Type 0} (facts : List Event) (f : A → M B) (G : A → List Event) (H : B → List Event)
      (t : Trace) (p : Trace × Outcome A)
      → Knows facts t
      → Runs G t p
      → ((a : A) → Safe (G a ++ facts) (f a) H)
      → Runs H t (then_at f p)
  unfolding Runs
  then_at-Runs facts f G H t (t', value a) known done rest =
      let after =
        (rest a).run t' (Knows-append (G a) facts t' done.2 (Knows-grows facts t t' done.1 known))
          done.0 in
      (after.0, λ e seen. after.1 e (done.1 e seen), after.2)
  then_at-Runs facts f G H t (t', raised e) known done rest = (done.0, done.1, tt)

  pub >>=-Safe :
      {A B : Type 0} (facts : List Event) (m : M A) (f : A → M B) (G : A → List Event)
      (H : B → List Event)
      → Safe facts m G
      → ((a : A) → Safe (G a ++ facts) (f a) H)
      → Safe facts (m >>= f) H
  unfolding ◌>>=◌ Runs
  >>=-Safe facts m f G H first rest = record {
    run = λ t known ok. then_at-Runs facts f G H t (m t) known (first.run t known ok) rest;
  }

  recover_at-Runs :
      {A : Type 0} (facts : List Event) (handler : Error → M A) (G : A → List Event) (t : Trace)
      (p : Trace × Outcome A)
      → Knows facts t
      → Runs G t p
      → ((e : Error) → Safe facts (handler e) G)
      → Runs G t (recover_at handler p)
  unfolding Runs
  recover_at-Runs facts handler G t (t', value a) known done rest = done
  recover_at-Runs facts handler G t (t', raised e) known done rest =
      let after = (rest e).run t' (Knows-grows facts t t' done.1 known) done.0 in
      (after.0, λ x seen. after.1 x (done.1 x seen), after.2)

  pub try_except-Safe :
      {A : Type 0} (facts : List Event) (body : M A) (handler : Error → M A) (G : A → List Event)
      → Safe facts body G
      → ((e : Error) → Safe facts (handler e) G)
      → Safe facts (try_except body handler) G
  unfolding try_except Runs
  try_except-Safe facts body handler G first rest = record {
    run =
        λ t known ok. recover_at-Runs facts handler G t (body t) known (first.run t known ok) rest;
  }

  pub if-Safe :
      {A : Type 0} (facts : List Event) (b : Bool) (m n : M A) (G : A → List Event)
      → (b ≡ true → Safe facts m G)
      → (b ≡ false → Safe facts n G)
      → Safe facts (if b then m else n) G
  if-Safe facts true m n G then_case else_case = then_case refl
  if-Safe facts false m n G then_case else_case = else_case refl

  -- Knowing more before, and less after
  Learns-less :
      {A : Type 0} (G H : A → List Event) (p : Trace × Outcome A)
      → ((a : A) (t : Trace) → Knows (G a) t → Knows (H a) t)
      → Learns G p
      → Learns H p
  Learns-less G H (t, value a) less known = less a t known
  Learns-less G H (t, raised e) less known = tt

  pub weaken-Safe :
      {A : Type 0} (facts fewer : List Event) (m : M A) (G H : A → List Event)
      → ((t : Trace) → Knows facts t → Knows fewer t)
      → ((a : A) (t : Trace) → Knows (G a) t → Knows (H a) t)
      → Safe fewer m G
      → Safe facts m H
  weaken-Safe facts fewer m G H before after h = record {
    run = λ t known ok.
        let done = h.run t (before t known) ok in
        (done.0, done.1, Learns-less G H (m t) after done.2);
  }
