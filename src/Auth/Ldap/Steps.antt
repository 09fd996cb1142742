-- ===== src/Auth/Ldap/Steps.antt =====
-- internal/auth/ldap_directory.go: what each step of a login that succeeds has checked.
use capp_backend.Prelude.{
  String, ◌≡◌, refl, sym, ap, ◌∙◌, subst, Bool, true, false, ◌||◌, Option, none, some, List, [],
  ◌∷◌, ◌++◌, Result, ok, err, ◌==◌, if◌then◌else◌, contains, IsNodup, All, All-snoc, arith, inl,
  inr, Bool-cases, eq_iff, Result-cases, ok-injective,
}
use capp_backend.ApiErrors.{GoError}
use capp_backend.Kubernetes.Exec.{Exec, settle, raise}
use capp_backend.Auth.Ldap.{valid_identity, Entry, SearchResult, Directory, unavailable}
use capp_backend.Auth.Ldap.Search.{
  complete_result, the_entries, ldap_identity, collect_groups, available, with_connection,
  only_value, has_parts, bind_answer, verify_password, complete, only_entry, entry_dn,
}

err≢ok : {A : Type 0} {e : GoError} {a : A} → ◌≡◌ {A = Result GoError A} (err e) (ok a) → ⊥
err≢ok h = absurd cc

same_dn :
    (b : Bool) (here dn : String) → (if b then ok here else err unavailable) ≡ ok dn → here ≡ dn
same_dn true here dn h = ok-injective h
same_dn false here dn h = absurd (err≢ok h)

contains-snoc :
    (xs : List String) (x y : String) → contains (xs ++ x ∷ []) y ≡ (contains xs y || x == y)
contains-snoc [] x y = ground arith
contains-snoc (z ∷ xs) x y = ground (arith, contains-snoc xs x y)

IsNodup-snoc :
    (xs : List String) (x : String) → IsNodup xs → contains xs x ≡ false → IsNodup (xs ++ x ∷ [])
IsNodup-snoc [] x h lacks = (refl, tt)
IsNodup-snoc (y ∷ xs) x (p, h) lacks = (
  ground (arith, contains-snoc xs x y, eq_iff x y, eq_iff y x),
  IsNodup-snoc xs x h (ground arith),
)

module _ {W : Type 0} (d : Directory W) where
  opened :
      {A : Type 0} (body : d.Conn → Exec W A) (x : Result GoError d.Conn × W) (a : A) (v : W)
      → settle x (λ conn w. let r = body conn w in (r.0, d.close conn r.1)) (λ e. raise unavailable)
        ≡ (ok a, v)
      → (conn : d.Conn) × (w1 : W) × (w2 : W) × (x ≡ (ok conn, w1)) × (body conn w1 ≡ (ok a, w2))
  opened body (ok conn, w1) a v h =
      (conn, w1, (body conn w1).1, refl, ap (λ r. (r, (body conn w1).1)) (ap (λ t. t.0) h))
  opened body (err e, w1) a v h = absurd cc

  pub with_connection-ok :
      {A : Type 0} (body : d.Conn → Exec W A) (w v : W) (a : A)
      → with_connection d body w ≡ (ok a, v)
      → (conn : d.Conn) × (w1 : W) × (w2 : W) × (d.connect w ≡ (ok conn, w1))
        × (body conn w1 ≡ (ok a, w2))
  unfolding with_connection
  with_connection-ok body w v a h = opened body (d.connect w) a v h

  bind_answer-ok :
      (r : Result GoError (Unit {0})) (b : Bool)
      → bind_answer d r b ≡ ok tt
      → (r ≡ ok tt) × (b ≡ false)
  unfolding bind_answer
  bind_answer-ok r true h = absurd cc
  bind_answer-ok (ok u) false h = (refl, refl)
  bind_answer-ok (err e) false h = elim (Bool-cases (d.is_invalid_credentials e)) [
    | inl wrong ↦ absurd (err≢ok (rw wrong at h))
    | inr other ↦ absurd (err≢ok (rw other at h))
  ]

  -- A bind as `dn` with the password, on a connection of its own, was accepted in time.
  abbrev pub Accepted : String → String → Type 0
  Accepted dn password =
      (conn : d.Conn) × (before : W) × (after : W) × (d.bind conn dn password before
        ≡ (ok tt, after))
      × (d.ended after ≡ false)

  pub verify_password-Accepted :
      (dn password : String) (w v : W)
      → verify_password d dn password w ≡ (ok tt, v)
      → Accepted dn password
  unfolding verify_password
  verify_password-Accepted dn password w v h =
      let (conn, w1, w2, joined, answer) = with_connection-ok _ w v tt h in
      let (bound, live) =
        bind_answer-ok (d.bind conn dn password w1).0 (d.ended (d.bind conn dn password w1).1)
          (ap (λ x. x.0) answer) in
      (
        conn,
        w1,
        (d.bind conn dn password w1).1,
        ap (λ r. (r, (d.bind conn dn password w1).1)) bound,
        live,
      )

  -- The only value of an attribute, which is a valid identity.
  abbrev pub Identifies : Entry → String → String → Type 0
  Identifies entry attribute name =
      (entry.values attribute ≡ name ∷ []) × (valid_identity d.texts name ≡ true)

  single_value :
      (values : List String) (name : String)
      → only_value d values ≡ ok name
      → (values ≡ name ∷ []) × (valid_identity d.texts name ≡ true)
  single_value [] name h = absurd cc
  single_value (value ∷ []) name h = elim (Bool-cases (valid_identity d.texts value)) [
    | inl valid ↦
        let same : value ≡ name = ok-injective (rw valid at h) in
        (ap (λ n. n ∷ []) same, ap (valid_identity d.texts) (sym same) ∙ valid)
    | inr invalid ↦ absurd (err≢ok (rw invalid at h))
  ]
  single_value (value ∷ other ∷ rest) name h = absurd cc

  pub ldap_identity-ok :
      (user : Option Entry) (attribute name dn : String)
      → ldap_identity d user attribute ≡ ok name
      → entry_dn d user ≡ ok dn
      → (entry : Entry) × (user ≡ some entry) × (entry.dn ≡ dn) × Identifies entry attribute name
  unfolding ldap_identity entry_dn
  ldap_identity-ok none attribute name dn h k = absurd cc
  ldap_identity-ok (some entry) attribute name dn h k = (
    entry,
    refl,
    same_dn (has_parts d (d.parse_dn entry.dn)) entry.dn dn k,
    single_value (entry.values attribute) name h,
  )

  pub not_refused :
      {A : Type 0} (p q late : Bool) (x y : GoError) (u w v : W) (a : A)
      (rest : Result GoError A × W)
      → ◌≡◌ {A = Result GoError A × W}
          (if p || q then (err x, u) else if late then (err y, w) else rest)
          (ok a, v)
      → (p ≡ false) × (q ≡ false) × (rest ≡ (ok a, v))
  not_refused false false false x y u w v a rest h = (refl, refl, h)
  not_refused true q late x y u w v a rest h = absurd (err≢ok (ap (λ t. t.0) h))
  not_refused false true late x y u w v a rest h = absurd (err≢ok (ap (λ t. t.0) h))
  not_refused false false true x y u w v a rest h = absurd (err≢ok (ap (λ t. t.0) h))

  settled :
      {A : Type 0} (x : Result GoError A × W) (a : A) (v : W)
      → settle x (λ b w. (if d.ended w then err unavailable else ok b, w)) (λ e. raise unavailable)
        ≡ (ok a, v)
      → (x ≡ (ok a, v)) × (d.ended v ≡ false)
  settled (ok b, w) a v h = elim (Bool-cases (d.ended w)) [
    | inl late ↦ absurd (err≢ok (ap (λ x. x.0) (rw late at h)))
    | inr live ↦ let same = rw live at h in (same, ap (λ x. d.ended x.1) (sym same) ∙ live)
  ]
  settled (err e, w) a v h = absurd cc

  pub available-ok :
      {A : Type 0} (m : Exec W A) (w : W) {a : A} {v : W}
      → available d m w ≡ (ok a, v)
      → (m w ≡ (ok a, v)) × (d.ended v ≡ false)
  unfolding available
  available-ok m w {a} {v} h = settled (m w) a v h

  pub only_entry-ok :
      (entries : List (Option Entry)) (user : Option Entry)
      → only_entry d entries ≡ ok user
      → entries ≡ user ∷ []
  unfolding only_entry
  only_entry-ok [] user h = absurd cc
  only_entry-ok (entry ∷ []) user h = ap (λ u. u ∷ []) (ok-injective h)
  only_entry-ok (entry ∷ other ∷ rest) user h = absurd cc

  pub complete-ok :
      (r : Option SearchResult) (entries : List (Option Entry))
      → complete d r ≡ ok entries
      → (complete_result r ≡ true) × (the_entries r ≡ entries)
  unfolding complete
  complete-ok r entries h = elim (Bool-cases (complete_result r)) [
    | inl whole ↦ (whole, ok-injective (rw whole at h))
    | inr part ↦ absurd (err≢ok (rw part at h))
  ]

  -- No name twice, and each a valid identity.
  abbrev pub GoodGroups : List String → Type 0
  GoodGroups names = IsNodup names × All (λ n. valid_identity d.texts n ≡ true) names

  GoodGroups-add :
      (name : String) (names : List String)
      → valid_identity d.texts name ≡ true
      → GoodGroups names
      → GoodGroups (if contains names name then names else names ++ name ∷ [])
  GoodGroups-add name names valid (nodup, all) = elim (Bool-cases (contains names name)) [
    | inl there ↦ rw there (nodup, all)
    | inr lacks ↦ rw lacks (
      IsNodup-snoc names name nodup lacks,
      All-snoc (λ n. valid_identity d.texts n ≡ true) names name all valid,
    )
  ]

  identity_valid :
      (entry : Option Entry) (attribute name : String)
      → ldap_identity d entry attribute ≡ ok name
      → valid_identity d.texts name ≡ true
  unfolding ldap_identity
  identity_valid none attribute name h = absurd cc
  identity_valid (some entry) attribute name h = (single_value (entry.values attribute) name h).1

  pub collect_groups-GoodGroups :
      (attribute : String) (seen : List String) (entries : List (Option Entry))
      (names : List String)
      → GoodGroups seen
      → collect_groups d attribute seen entries ≡ ok names
      → GoodGroups names
  unfolding collect_groups
  collect_groups-GoodGroups attribute seen [] names good h = subst GoodGroups (ok-injective h) good
  collect_groups-GoodGroups attribute seen (entry ∷ rest) names good h =
      elim (Result-cases (ldap_identity d entry attribute)) [
        | inl (name, e) ↦
            collect_groups-GoodGroups attribute
              (if contains seen name then seen else seen ++ name ∷ []) rest names
              (GoodGroups-add name seen (identity_valid entry attribute name e) good)
              (rw (e, collect_groups) at h)
        | inr (x, e) ↦ absurd (err≢ok (rw (e, collect_groups) at h))
      ]
