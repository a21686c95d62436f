-- ===== src/Exec/Credentials/Laws.antt =====
-- Which references `resolve_eager` resolves.
use vasal.Prelude.{
  String, str_eq, eq_iff, List, [], ◌∷◌, Bool, true, false, FilePath, ◌≡◌, refl, subst, inl, inr,
  ◌⊎◌, if◌then◌else◌, arith,
}
use vasal.Prelude.Results.{Result, ok, err}
use vasal.Protocol.Credential.{CredentialRef, ResolveMode, eager, lazy}
use vasal.Host.{Env}
use vasal.Host.Act.{World}
use vasal.Host.Attempt
use vasal.Host.Attempt.{Attempt, Error}
use vasal.Exec.Credentials.{
  ResolvedCredentials, put, is_lazy, resolve_one, resolve_from, resolve_eager,
}

abbrev pub eager_references : {V : Type 0} → List (CredentialRef V) → List (CredentialRef V)
eager_references [] = []
eager_references (c ∷ refs) =
    let rest = eager_references refs in if is_lazy c.resolve then rest else c ∷ rest

abbrev pub has_value : String → ResolvedCredentials → Bool
has_value name [] = false
has_value name (c ∷ creds) = if str_eq c.0 name then true else has_value name creds

-- Every reference of the list has a value under its name.
abbrev pub HasAll : {V : Type 0} → List (CredentialRef V) → ResolvedCredentials → Type 0
HasAll [] creds = Unit
HasAll (c ∷ refs) creds = (has_value c.name creds ≡ true) × HasAll refs creds

put-has_value :
    (name asked value : String) (creds : ResolvedCredentials)
    → has_value asked (put name value creds)
      ≡ (if str_eq name asked then true else has_value asked creds)
unfolding put
put-has_value name asked value [] = refl
put-has_value name asked value (c ∷ creds) = ground (
  arith,
  eq_iff c.0 name,
  eq_iff c.0 asked,
  eq_iff name asked,
  put-has_value name asked value creds,
)

-- What has a value before `put` has one after it, and so has the name that is put.
put_keeps :
    (name asked value : String) (creds : ResolvedCredentials)
    → has_value asked creds ≡ true
    → has_value asked (put name value creds) ≡ true
put_keeps name asked value creds h = ground (arith, put-has_value name asked value creds)

put_has :
    (name value : String) (creds : ResolvedCredentials)
    → has_value name (put name value creds) ≡ true
put_has name value creds = ground (arith, put-has_value name name value creds, eq_iff name name)

mode-cases : (m : ResolveMode) → (m ≡ eager) ⊎ (m ≡ lazy)
mode-cases eager = inl refl
mode-cases lazy = inr refl

module _ {V : Type 0} where
  -- The same first action, followed by actions that agree.
  continue-cong :
      {A B : Type 0} (m : Result Error A × World V) (f g : A → Attempt V B)
      → ((a : A) (w : World V) → f a w ≡ g a w)
      → Attempt.continue m.0 f m.1 ≡ Attempt.continue m.0 g m.1
  continue-cong (ok a, w) f g h = h a w
  continue-cong (err e, w) f g h = refl

module _ {V : Type 0} (env : Env V) (socket_dir : FilePath) where
  mode-eager :
      (m : ResolveMode) (c : CredentialRef V) (refs : List (CredentialRef V))
      (creds : ResolvedCredentials) (w : World V)
      → c.resolve ≡ m
      → ((more : ResolvedCredentials) (w : World V)
          → resolve_from env more refs socket_dir w
            ≡ resolve_from env more (eager_references refs) socket_dir w)
      → resolve_from env creds (c ∷ refs) socket_dir w
        ≡ resolve_from env creds (eager_references (c ∷ refs)) socket_dir w
  unfolding resolve_from is_lazy
  mode-eager lazy c refs creds w p k = rw p (k creds w)
  mode-eager eager c refs creds w p k = rw p (
      continue-cong (resolve_one env c socket_dir w)
        (λ value. resolve_from env (put c.name value creds) refs socket_dir)
        (λ value. resolve_from env (put c.name value creds) (eager_references refs) socket_dir)
        (λ value w'. k (put c.name value creds) w'))

  resolve_from-eager :
      (creds : ResolvedCredentials) (refs : List (CredentialRef V)) (w : World V)
      → resolve_from env creds refs socket_dir w
        ≡ resolve_from env creds (eager_references refs) socket_dir w
  resolve_from-eager creds [] w = refl
  resolve_from-eager creds (c ∷ refs) w =
      mode-eager c.resolve c refs creds w refl (λ more w'. resolve_from-eager more refs w')

  -- Lazy references make no difference to `resolve_eager`, to its answer or to what it does: it runs
  -- as if they were not there, and no provider of a lazy reference is called.
  pub resolve_eager-eager_references :
      (refs : List (CredentialRef V)) (w : World V)
      → resolve_eager env refs socket_dir w ≡ resolve_eager env (eager_references refs) socket_dir w
  unfolding resolve_eager
  resolve_eager-eager_references refs w = resolve_from-eager [] refs w

  -- The names of the references, and those that had a value before, have one after.
  Resolved :
      List (CredentialRef V) → ResolvedCredentials → Result Error ResolvedCredentials → Type 0
  Resolved refs creds (err e) = Unit
  Resolved refs creds (ok out) =
      HasAll (eager_references refs) out
      × ((asked : String) → has_value asked creds ≡ true → has_value asked out ≡ true)

  Resolved-eager :
      (c : CredentialRef V) (refs : List (CredentialRef V)) (creds : ResolvedCredentials)
      (m : Result Error String × World V)
      → c.resolve ≡ eager
      → ((more : ResolvedCredentials) (w : World V)
          → Resolved refs more (resolve_from env more refs socket_dir w).0)
      → Resolved
          (c ∷ refs)
          creds
          (Attempt.continue m.0
            (λ value. resolve_from env (put c.name value creds) refs socket_dir)
            m.1).0
  unfolding Resolved is_lazy
  Resolved-eager c refs creds (err e, w) p k = tt
  Resolved-eager c refs creds (ok value, w) p k =
      added (resolve_from env (put c.name value creds) refs socket_dir w).0
        (k (put c.name value creds) w)
    where
      added :
          (o : Result Error ResolvedCredentials)
          → Resolved refs (put c.name value creds) o
          → Resolved (c ∷ refs) creds o
      added (err e) h = tt
      added (ok out) h = (
        rw (p, is_lazy) (h.1 c.name (put_has c.name value creds), h.0),
        λ asked had. h.1 asked (put_keeps c.name asked value creds had),
      )

  Resolved-lazy :
      (c : CredentialRef V) (refs : List (CredentialRef V)) (creds : ResolvedCredentials)
      (o : Result Error ResolvedCredentials)
      → c.resolve ≡ lazy
      → Resolved refs creds o
      → Resolved (c ∷ refs) creds o
  unfolding Resolved is_lazy
  Resolved-lazy c refs creds (err e) p h = tt
  Resolved-lazy c refs creds (ok out) p h = (rw (p, is_lazy) h.0, h.1)

  eager_step :
      (c : CredentialRef V) (refs : List (CredentialRef V)) (creds : ResolvedCredentials)
      (w : World V)
      → c.resolve ≡ eager
      → let m = resolve_one env c socket_dir w in
        Attempt.continue m.0
          (λ value. resolve_from env (put c.name value creds) refs socket_dir)
          m.1
        ≡ resolve_from env creds (c ∷ refs) socket_dir w
  unfolding resolve_from
  eager_step c refs creds w p = rw p refl

  lazy_step :
      (c : CredentialRef V) (refs : List (CredentialRef V)) (creds : ResolvedCredentials)
      (w : World V)
      → c.resolve ≡ lazy
      → resolve_from env creds refs socket_dir w ≡ resolve_from env creds (c ∷ refs) socket_dir w
  unfolding resolve_from
  lazy_step c refs creds w p = rw p refl

  resolve_from-Resolved :
      (refs : List (CredentialRef V)) (creds : ResolvedCredentials) (w : World V)
      → Resolved refs creds (resolve_from env creds refs socket_dir w).0
  unfolding resolve_from Resolved
  resolve_from-Resolved [] creds w = (tt, λ asked had. had)
  resolve_from-Resolved (c ∷ refs) creds w =
      let P = λ (m : Result Error ResolvedCredentials × World V). Resolved (c ∷ refs) creds m.0 in
      elim (mode-cases c.resolve) [
        | inl p ↦ subst P (eager_step c refs creds w p) (
            Resolved-eager c refs creds (resolve_one env c socket_dir w) p
              (λ more w'. resolve_from-Resolved refs more w'))
        | inr p ↦ subst P (lazy_step c refs creds w p) (
            Resolved-lazy c refs creds (resolve_from env creds refs socket_dir w).0 p
              (resolve_from-Resolved refs creds w))
      ]

  -- Where `resolve_eager` succeeds, every eager reference has a value under its name.
  pub resolve_eager-HasAll :
      (refs : List (CredentialRef V)) (creds : ResolvedCredentials) (w w' : World V)
      → resolve_eager env refs socket_dir w ≡ (ok creds, w')
      → HasAll (eager_references refs) creds
  unfolding resolve_eager Resolved
  resolve_eager-HasAll refs creds w w' e =
      let r : Resolved refs [] (ok creds) =
        subst (λ (m : Result Error ResolvedCredentials × World V). Resolved refs [] m.0) e
          (resolve_from-Resolved refs [] w) in
      r.0
