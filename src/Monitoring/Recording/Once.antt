-- ===== src/Monitoring/Recording/Once.antt =====
-- A reader is told once: `record` of src/aidss/monitoring/alerts.py with no other session in between.
use mathlib.Core.Path.{subst}
use stock_recommendation_be.Base.{
  ℕ, suc, ◌≡◌, refl, sym, ap, ◌∙◌, inl, inr, true, false, ◌||◌, Option, none, some, List, [], ◌∷◌,
  ◌++◌, append_assoc, append-nil, any, any-append, str_eq_refl, All, Bool-cases, arith,
}
use stock_recommendation_be.Monitoring.Alerts.{AlertCandidate}
use stock_recommendation_be.Monitoring.Recording.{
  Alert, Session, same_day, same_key, has_key, is_known, new_alert, others_commit, add_and_flush,
  record_one, record_from, record_alerts,
}

abbrev pub quiet : ℕ → List Alert
quiet _ = []

same_day_refl : (d : Option ℕ) → same_day d d ≡ true
unfolding same_day
same_day_refl none = refl
same_day_refl (some d) = ground arith

module _ (user asset : ℕ) where
  has_key-new_alert :
      (c : AlertCandidate) → has_key user c.dedup_key (new_alert user asset c) ≡ true
  unfolding has_key same_key
  has_key-new_alert c =
      ground (arith, str_eq_refl c.dedup_key.what, same_day_refl c.dedup_key.session_day)

  quiet_session : (s : Session) → others_commit [] s ≡ s
  unfolding others_commit
  quiet_session s = cc (append-nil s.committed, append-nil s.working)

  record_known :
      (race : List Alert) (c : AlertCandidate) (s : Session)
      → is_known user c s.working ≡ true
      → record_one user asset race c s ≡ ([], s)
  unfolding record_one
  record_known race c s known = rw known refl

  record_new :
      (c : AlertCandidate) (s : Session)
      → is_known user c s.working ≡ false
      → record_one user asset [] c s ≡ (
        new_alert user asset c ∷ [],
        record s { working = s.working ++ new_alert user asset c ∷ [] },
      )
  unfolding record_one add_and_flush
  record_new c s new = rw (new, record_one) (flushed (others_commit [] s) (quiet_session s))
    where
      flushed :
          (t : Session)
          → t ≡ s
          → add_and_flush user asset c t ≡ (
            new_alert user asset c ∷ [],
            record s { working = s.working ++ new_alert user asset c ∷ [] },
          )
      flushed t e = rw (e, new, add_and_flush) refl

  is_known-append :
      (c : AlertCandidate) (xs ys : List Alert)
      → is_known user c xs ≡ true
      → is_known user c (xs ++ ys) ≡ true
  unfolding is_known
  is_known-append c xs ys h =
      any-append (has_key user c.dedup_key) xs ys
      ∙ ap (λ b. b || any (has_key user c.dedup_key) ys) h

  new_is_known :
      (c : AlertCandidate) (xs : List Alert)
      → is_known user c (xs ++ new_alert user asset c ∷ []) ≡ true
  unfolding is_known
  new_is_known c xs = ground (
    arith,
    any-append (has_key user c.dedup_key) xs (new_alert user asset c ∷ []),
    has_key-new_alert c,
  )

  -- The rows stay, those returned are added, and the candidates are known.
  abbrev Adds : List AlertCandidate → Session → (List Alert × Session) → Type 0
  Adds cs s r = (r.1.working ≡ s.working ++ r.0) × All (λ c. is_known user c r.1.working ≡ true) cs

  record_one-Adds :
      (c : AlertCandidate) (s : Session) → Adds (c ∷ []) s (record_one user asset [] c s)
  record_one-Adds c s = elim (Bool-cases (is_known user c s.working)) [
    | inl known ↦ rw (record_known [] c s known) (append-nil s.working, (known, tt))
    | inr new ↦ rw (record_new c s new) (refl, (new_is_known c s.working, tt))
  ]

  record_from-Adds :
      (n : ℕ) (cs : List AlertCandidate) (s : Session)
      → Adds cs s (record_from user asset quiet n cs s)
  unfolding record_from
  record_from-Adds n [] s = (append-nil s.working, tt)
  record_from-Adds n (c ∷ cs) s =
      let first = record_one user asset [] c s in
      let rest = record_from user asset quiet (suc n) cs first.1 in
      let h = record_one-Adds c s in
      let k = record_from-Adds (suc n) cs first.1 in
      (
        k.0 ∙ ap (λ l. l ++ rest.0) h.0 ∙ append_assoc s.working first.0 rest.0,
        (
          subst (λ l. is_known user c l ≡ true) (sym k.0)
              (is_known-append c first.1.working rest.0 h.1.0),
          k.1,
        ),
      )

  record_from-known :
      (race : ℕ → List Alert) (n : ℕ) (cs : List AlertCandidate) (s : Session)
      → All (λ c. is_known user c s.working ≡ true) cs
      → record_from user asset race n cs s ≡ ([], s)
  unfolding record_from
  record_from-known race n [] s a = refl
  record_from-known race n (c ∷ cs) s a =
      rw (record_known (race n) c s a.0, record_from, record_from-known race (suc n) cs s a.1) refl

  -- With no other session in between, the rows that are returned are those added to the table, and
  -- the same candidates a second time add nothing, whatever other sessions commit then.
  pub record_alerts_once :
      (race : ℕ → List Alert) (cs : List AlertCandidate) (s : Session)
      → let r = record_alerts user asset quiet cs s in
        (r.1.working ≡ s.working ++ r.0) × (record_alerts user asset race cs r.1 ≡ ([], r.1))
  unfolding record_alerts
  record_alerts_once race cs s =
      let h = record_from-Adds 0 cs s in
      (h.0, record_from-known race 0 cs (record_from user asset quiet 0 cs s).1 h.1)
