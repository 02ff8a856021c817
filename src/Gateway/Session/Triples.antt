-- ===== src/Gateway/Session/Triples.antt =====
-- Conditions before and behind an action: one for its value, one for its error.
use ubuntu_daemon.Base.{◌≡◌, refl, Option, none, some, List, [], ◌∷◌, ◌++◌, Text, Result, ok, err}
use ubuntu_daemon.Gateway.Session.Wire.{
  GatewayRequest, Received, Ending, why_ended, Wire, Action, ◌>>=◌, ◌>>◌, return, write_json,
  read_json,
}

-- What holds of a result and of what it leaves.
abbrev pub Ends {ℓ κ} :
    {A : Type ℓ} → (Text → Wire → Type κ) → (A → Wire → Type κ) → Result A × Wire → Type κ
Ends E Q out = elim out.0 [ err why ↦ E why out.1 | ok value ↦ Q value out.1 ]

abbrev pub Triple {ℓ κ} :
    {A : Type ℓ}
    → (Wire → Type κ)
    → Action A
    → (A → Wire → Type κ)
    → (Text → Wire → Type κ)
    → Type κ
Triple P m Q E = (w : Wire) → P w → Ends E Q (m w)

module _ {κ} (E : Text → Wire → Type κ) where
  pub bind-Triple {ℓ ℓ'} :
      {A : Type ℓ} {B : Type ℓ'} (P : Wire → Type κ) (Q : A → Wire → Type κ) (R : B → Wire → Type κ)
      (m : Action A) (next : A → Action B)
      → Triple P m Q E
      → ((a : A) → Triple (Q a) (next a) R E)
      → Triple P (m >>= next) R E
  unfolding ◌>>=◌
  bind-Triple {A = A} P Q R m next first then_ w h = from (m w).0 refl (first w h)
    where
      from : (r : Result A) → (m w).0 ≡ r → Ends E Q (m w) → Ends E R ((m >>= next) w)
      from (err why) e k = rw (e, ◌>>=◌) (rw e at k)
      from (ok value) e k = rw (e, ◌>>=◌) (then_ value (m w).1 (rw e at k))

  pub then-Triple {ℓ ℓ'} :
      {A : Type ℓ} {B : Type ℓ'} (P Q : Wire → Type κ) (R : B → Wire → Type κ) (m : Action A)
      (next : Action B)
      → Triple P m (λ _. Q) E
      → Triple Q next R E
      → Triple P (m >> next) R E
  unfolding ◌>>◌
  then-Triple P Q R m next first then_ = bind-Triple P (λ _. Q) R m (λ _. next) first (λ _. then_)

  pub return-Triple {ℓ} :
      {A : Type ℓ} (P : Wire → Type κ) (Q : A → Wire → Type κ) (r : Result A)
      → ((w : Wire) (value : A) → r ≡ ok value → P w → Q value w)
      → ((w : Wire) (why : Text) → r ≡ err why → P w → E why w)
      → Triple P (return r) Q E
  return-Triple P Q (ok value) good bad w h = good w value refl h
  return-Triple P Q (err why) good bad w h = bad w why refl h

  pub write_json-Triple :
      (P Q : Wire → Type κ) (failure : GatewayRequest → Option Text) (prefix : Text)
      (request : GatewayRequest)
      → ((w : Wire) → P w → Q (record w { sent = w.sent ++ (request ∷ []) }))
      → ((w : Wire) (why : Text) → P w → E why w)
      → Triple P (write_json failure prefix request) (λ _. Q) E
  unfolding write_json
  write_json-Triple P Q failure prefix request good bad w h = from (failure request) refl
    where
      from :
          (o : Option Text)
          → failure request ≡ o
          → Ends E (λ _. Q) (write_json failure prefix request w)
      from (some why) e = rw (e, write_json) (bad w (prefix ++ why) h)
      from none e = rw (e, write_json) (good w h)

  pub read_json-Triple :
      (P Q : Wire → Type κ) (ending : Ending) (prefix : Text)
      → ((w : Wire) (f : Received) (rest : List Received)
          → w.incoming ≡ f ∷ rest
          → P w
          → Q (record w { incoming = rest }))
      → ((w : Wire) (why : Text) → P w → E why w)
      → Triple P (read_json ending prefix) (λ _. Q) E
  unfolding read_json
  read_json-Triple P Q ending prefix good bad w h = from w.incoming refl
    where
      from :
          (frames : List Received)
          → w.incoming ≡ frames
          → Ends E (λ _. Q) (read_json ending prefix w)
      from [] e = simp (e, read_json) (bad w (prefix ++ why_ended ending) h)
      from (f ∷ rest) e = simp (e, read_json) (good w f rest e h)

  pub Ends_always {ℓ} :
      {A : Type ℓ} (Q : A → Wire → Type κ) (out : Result A × Wire)
      → ((why : Text) → E why out.1)
      → ((value : A) → Q value out.1)
      → Ends E Q out
  Ends_always Q (err why, w) bad good = bad why
  Ends_always Q (ok value, w) bad good = good value

  -- What follows from either condition.
  pub Ends_either {ℓ} :
      {A : Type ℓ} (Q : A → Wire → Type κ) (X : Wire → Type κ) (out : Result A × Wire)
      → ((w : Wire) (why : Text) → E why w → X w)
      → ((w : Wire) (value : A) → Q value w → X w)
      → Ends E Q out
      → X out.1
  Ends_either Q X (err why, w) bad good h = bad w why h
  Ends_either Q X (ok value, w) bad good h = good w value h
