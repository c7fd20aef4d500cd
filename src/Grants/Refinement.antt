-- ===== src/Grants/Refinement.antt =====
-- Authorization codes against an ideal store that never sweeps: what SaveCode sweeps away makes no
-- difference to what ConsumeCode answers, as long as the clock does not go back.
use fake_auth.Base.{
  ℕ, ◌+◌, ◌≤◌, String, ◌≡◌, refl, sym, ap, ◌∙◌, Option, none, some, List, [], ◌∷◌, arith, ◌==◌,
  eq_iff, Bool-cases, inl, inr, ne_of_eq,
}
use fake_auth.Dict.{Dict, get, put, remove, get-put, get-remove, get-put_self, get-remove_self}
use fake_auth.Dict.Range.{alive}
use fake_auth.Grants.{
  AuthCode, Store, code_expired, clean_expired_codes, save_code, take_code, consume_code,
}
use fake_auth.Grants.OneTime.{consume_code_lem, consume_code_ne, save_code_ne}

-- A call: SaveCode with the reading for the expiry and the one for the sweep, or ConsumeCode.
pub data Call : Type 0 where
  saves : ℕ → ℕ → String → AuthCode → Call
  consumes : ℕ → String → Call

-- What the program does, with the answer of ConsumeCode.
unfoldable pub step : Store → Call → Store × Option AuthCode
step s (saves stamp swept code ac) = (save_code stamp swept code ac s, none)
step s (consumes now code) = consume_code now code s

-- The ideal: a code stays until it is consumed, and counts while it has not expired.
unfoldable pub ideal_step : ℕ → Dict AuthCode → Call → Dict AuthCode × Option AuthCode
ideal_step ttl m (saves stamp swept code ac) =
    (put m code (record ac { expires_at = stamp + ttl }), none)
ideal_step ttl m (consumes now code) = (remove m code, alive (code_expired now) (get m code))

unfoldable pub answers : Store → List Call → List (Option AuthCode)
answers s [] = []
answers s (c ∷ cs) = (step s c).1 ∷ answers (step s c).0 cs

unfoldable pub ideal_answers : ℕ → Dict AuthCode → List Call → List (Option AuthCode)
ideal_answers ttl m [] = []
ideal_answers ttl m (c ∷ cs) = (ideal_step ttl m c).1 ∷ ideal_answers ttl (ideal_step ttl m c).0 cs

-- The reading of the clock that a call tests expiries at.
abbrev pub time : Call → ℕ
time (saves stamp swept code ac) = swept
time (consumes now code) = now

-- The clock does not go back, from the instant on.
abbrev pub Forward : ℕ → List Call → Type 0
Forward t [] = Unit
Forward t (c ∷ cs) = (t ≤ time c) × Forward (time c) cs

-- The two hold the same under the key, of what is alive at the instant.
abbrev Agrees : ℕ → Option AuthCode → Option AuthCode → Type 0
Agrees t a b = alive (code_expired t) a ≡ alive (code_expired t) b

alive_later :
    (t u : ℕ) (o : Option AuthCode)
    → t ≤ u
    → alive (code_expired u) o ≡ alive (code_expired u) (alive (code_expired t) o)
alive_later t u none h = refl
alive_later t u (some ac) h = ground arith

Agrees-later : (t u : ℕ) (a b : Option AuthCode) → t ≤ u → Agrees t a b → Agrees u a b
Agrees-later t u a b h e =
    alive_later t u a h ∙ ap (alive (code_expired u)) e ∙ sym (alive_later t u b h)

abbrev Refines : ℕ → Store → Dict AuthCode → Type 0
Refines t s m = (code : String) → Agrees t (get s.codes code) (get m code)

Refines-later : (t u : ℕ) (s : Store) (m : Dict AuthCode) → t ≤ u → Refines t s m → Refines u s m
Refines-later t u s m h r code = Agrees-later t u (get s.codes code) (get m code) h (r code)

module _ (s : Store) (m : Dict AuthCode) where
  get-saved :
      (stamp swept : ℕ) (code : String) (ac : AuthCode)
      → get (save_code stamp swept code ac s).codes code
        ≡ some (record ac { expires_at = stamp + s.code_ttl })
  unfolding save_code
  get-saved stamp swept code ac = get-put_self _ code _

  save-Refines :
      (stamp swept : ℕ) (code : String) (ac : AuthCode)
      → Refines swept s m
      → Refines swept
          (save_code stamp swept code ac s)
          (put m code (record ac { expires_at = stamp + s.code_ttl }))
  save-Refines stamp swept code ac r other = elim (Bool-cases (code == other)) [
    | inl hit ↦ rw (← (eq_iff code other).0 hit) (
        ap (alive (code_expired swept))
          (get-saved stamp swept code ac ∙ sym (get-put_self m code _)))
    | inr miss ↦ rw (save_code_ne stamp swept code other ac s (ne_of_eq code other miss)) (
        rw (get-put m code other (record ac { expires_at = stamp + s.code_ttl }), miss)
          (sym (alive_later swept swept (get s.codes other) (omega arith)) ∙ r other))
  ]

  consume-Refines :
      (now : ℕ) (code : String)
      → Refines now s m
      → Refines now (consume_code now code s).0 (remove m code)
  consume-Refines now code r other = elim (Bool-cases (code == other)) [
    | inl hit ↦ rw (← (eq_iff code other).0 hit) (
        ap (alive (code_expired now))
          ((consume_code_lem now code s).1 ∙ sym (get-remove_self m code)))
    | inr miss ↦
        rw (consume_code_ne now code s other (ne_of_eq code other miss))
          (rw (get-remove m code other, miss) (r other))
  ]

-- The term of codes never changes.
step-ttl : (s : Store) (c : Call) → (step s c).0.code_ttl ≡ s.code_ttl
unfolding step save_code clean_expired_codes consume_code take_code
step-ttl s (saves stamp swept code ac) = refl
step-ttl s (consumes now code) = ground arith

-- Both answer alike, and go on refining.
step-Refines :
    (s : Store) (m : Dict AuthCode) (c : Call)
    → Refines (time c) s m
    → Refines (time c) (step s c).0 (ideal_step s.code_ttl m c).0
unfolding step ideal_step
step-Refines s m (saves stamp swept code ac) r = save-Refines s m stamp swept code ac r
step-Refines s m (consumes now code) r = consume-Refines s m now code r

step-answer :
    (s : Store) (m : Dict AuthCode) (c : Call)
    → Refines (time c) s m
    → (step s c).1 ≡ (ideal_step s.code_ttl m c).1
unfolding step ideal_step
step-answer s m (saves stamp swept code ac) r = refl
step-answer s m (consumes now code) r = (consume_code_lem now code s).0 ∙ r code

answers-Refines :
    (t : ℕ) (s : Store) (m : Dict AuthCode) (cs : List Call)
    → Forward t cs
    → Refines t s m
    → answers s cs ≡ ideal_answers s.code_ttl m cs
unfolding answers ideal_answers
answers-Refines t s m [] forward r = refl
answers-Refines t s m (c ∷ cs) (h, forward) r =
    let now = Refines-later t (time c) s m h r in
    let rest =
      answers-Refines (time c) (step s c).0 (ideal_step s.code_ttl m c).0 cs forward
        (step-Refines s m c now) in
    rw (step-answer s m c now) (
      ap (λ l. (ideal_step s.code_ttl m c).1 ∷ l)
        (rest ∙ ap (λ ttl. ideal_answers ttl (ideal_step s.code_ttl m c).0 cs) (step-ttl s c)))

-- For every sequence of calls between which the clock does not go back, the store answers as the
-- ideal one does that starts with the same codes, never sweeps, and hands a code out if it was
-- saved, was not consumed since, and has not expired.
pub answers-refine :
    (t : ℕ) (s : Store) (cs : List Call)
    → Forward t cs
    → answers s cs ≡ ideal_answers s.code_ttl s.codes cs
answers-refine t s cs forward = answers-Refines t s s.codes cs forward (λ code. refl)
