-- ===== src/Access/Guards.antt =====
-- Who passes the guards.
use zentora_backend.Prelude.{
  ℕ, ◌≡◌, refl, sym, ap, ◌∙◌, ◌⊎◌, inl, inr, Bool, true, false, ◌||◌, Option, none, some, List, [],
  ◌∷◌, arith, any, Bool-cases, Option-cases,
}
use zentora_backend.Text.{Text, lit, is_empty, text_eq}
use zentora_backend.Access.{
  Value, int, text, texts, flag, other, Context, get, set_all, Claims, Request, Reply, passed,
  refused, holds, holds_any, holds_all, guarded, require_role, require_all_roles, get_identity_id,
  get_roles, has_role, is_admin, as_texts, extract_token, admitted, auth, and_then, admin_only,
}

abbrev pub has_key : Text → List (Text × Value) → Bool
has_key key = any (λ p. text_eq p.0 key)

get-set_all :
    (key : Text) (ps : List (Text × Value)) (c : Context)
    → has_key key ps ≡ false
    → get key (set_all ps c) ≡ get key c
unfolding get
get-set_all key [] c h = refl
get-set_all key (p ∷ ps) c h = get-set_all key ps (p ∷ c) (ground arith) ∙ ground arith

-- A guard lets a context pass unchanged, and only if its list passes the test.
guarded-passed :
    (test : List Text → Bool) (c : Context) (v : Option Value) {c' : Context}
    → guarded test c v ≡ passed c'
    → (c' ≡ c) × (held : List Text) × (v ≡ some (texts held)) × (test held ≡ true)
guarded-passed test c none e = cc
guarded-passed test c (some (int i)) e = cc
guarded-passed test c (some (text t)) e = cc
guarded-passed test c (some (flag b)) e = cc
guarded-passed test c (some other) e = cc
guarded-passed test c (some (texts held)) e = elim (Bool-cases (test held)) [
  | inl yes_ ↦ (ground arith, held, refl, yes_)
  | inr no_ ↦ absurd (ground arith)
]

module _ (equal_fold : Text → Text → Bool) (validate_token : Text → Option Claims) where
  auth-passed :
      (r : Request) (c : Context) {c' : Context}
      → auth equal_fold validate_token r c ≡ passed c'
      → (k : Claims) × (validate_token (extract_token equal_fold validate_token r) ≡ some k)
        × (is_empty (extract_token equal_fold validate_token r) ≡ false)
        × (c' ≡ admitted equal_fold validate_token k c)
  unfolding auth
  auth-passed r c {c'} e =
      elim (Bool-cases (is_empty (extract_token equal_fold validate_token r))) [
        | inl bare ↦ absurd (ground arith)
        | inr given_ ↦
            elim (Option-cases (validate_token (extract_token equal_fold validate_token r))) [
              | inl bad ↦ absurd (ground arith)
              | inr (k, good) ↦ (k, good, given_, ground arith)
            ]
      ]

  -- Who a chain of Auth and an admin guard has let in.
  pub record IsAdmin (r : Request) (c' : Context) : Type 0 where
    pub claims : Claims
    pub valid : validate_token (extract_token equal_fold validate_token r) ≡ some claims
    pub token : is_empty (extract_token equal_fold validate_token r) ≡ false
    pub role : holds_any (lit "admin" ∷ lit "super_admin" ∷ []) claims.roles ≡ true
    pub roles : get_roles c' ≡ claims.roles
    pub identity : get_identity_id c' ≡ some claims.identity_id

  -- If the extra data of valid tokens has no key `roles` or `identity_id`, AdminOnly lets a request
  -- pass only with a valid token whose claims name the role admin or super_admin, and the handler
  -- then sees the roles and the identity of those claims.
  pub admin_only-IsAdmin :
      (r : Request) (c : Context) {c' : Context}
      → ((t : Text) (k : Claims)
          → validate_token t ≡ some k
          → (has_key (lit "roles") k.extra_data ≡ false)
            × (has_key (lit "identity_id") k.extra_data ≡ false))
      → admin_only equal_fold validate_token r c ≡ passed c'
      → IsAdmin r c'
  unfolding admin_only require_role get_roles get_identity_id
  admin_only-IsAdmin r c {c'} plain e = run (auth equal_fold validate_token r c) refl e
    where
      run :
          (p : Reply)
          → auth equal_fold validate_token r c ≡ p
          → and_then equal_fold validate_token p
              (require_role (lit "admin" ∷ lit "super_admin" ∷ []))
            ≡ passed c'
          → IsAdmin r c'
      run (refused n) e1 e2 = cc
      run (passed c1) e1 e2 =
          let (k, good, given_, here) = auth-passed r c e1 in
          let (same, held, found, has) = guarded-passed _ c1 (get (lit "roles") c1) e2 in
          let (no_roles, no_identity) = plain (extract_token equal_fold validate_token r) k good in
          let roles : get (lit "roles") c1 ≡ some (texts k.roles) =
            ap (get (lit "roles")) here
            ∙ get-set_all (lit "roles") k.extra_data _ no_roles
            ∙ unfold get in refl in
          let identity : get (lit "identity_id") c1 ≡ some (int k.identity_id) =
            ap (get (lit "identity_id")) here
            ∙ get-set_all (lit "identity_id") k.extra_data _ no_identity
            ∙ unfold get in refl in
          let mine : held ≡ k.roles = ground arith in
          rw same (record {
            claims = k;
            valid = good;
            token = given_;
            role = rw (sym mine) has;
            roles = rw roles refl;
            identity = rw identity refl;
          })

-- A required name that is held.
holds_all-head :
    (r : Text) (required held : List Text)
    → holds_all (r ∷ required) held ≡ true
    → holds held r ≡ true
holds_all-head r required held h = ground arith

holds_any-member :
    (r : Text) (required held : List Text)
    → holds held r ≡ true
    → holds_any (r ∷ required) held ≡ true
holds_any-member r required [] h = cc
holds_any-member r required (x ∷ held) h = ground (arith, holds_any-member r required held)

-- Where RequireAllRoles with at least one role lets a context pass, RequireRole with the same roles
-- does, and with the same context.
pub require_all_roles-require_role :
    (r : Text) (roles : List Text) (c : Context) {c' : Context}
    → require_all_roles (r ∷ roles) c ≡ passed c'
    → require_role (r ∷ roles) c ≡ passed c'
unfolding require_all_roles require_role
require_all_roles-require_role r roles c {c'} e =
    let (same, held, found, has) =
      guarded-passed (holds_all (r ∷ roles)) c (get (lit "roles") c) e in
    let one = holds_any-member r roles held (holds_all-head r roles held has) in
    ap (guarded (holds_any (r ∷ roles)) c) found ∙ ground (arith, one)

holds_any-two :
    (r q : Text) (held : List Text) → holds held r || holds held q ≡ holds_any (r ∷ q ∷ []) held
holds_any-two r q [] = refl
holds_any-two r q (x ∷ held) = ground (arith, holds_any-two r q held)

-- IsAdmin, which handlers ask, says what the admin guard of the routes decides.
pub is_admin-require_role :
    (c : Context)
    → (is_admin c ≡ true) × (require_role (lit "admin" ∷ lit "super_admin" ∷ []) c ≡ passed c)
      ⊎ (is_admin c ≡ false)
        × (status : ℕ) × (require_role (lit "admin" ∷ lit "super_admin" ∷ []) c ≡ refused status)
unfolding is_admin has_role get_roles require_role
is_admin-require_role c = decided (get (lit "roles") c)
  where
    decided :
        (v : Option Value)
        → (holds (as_texts v) (lit "admin") || holds (as_texts v) (lit "super_admin") ≡ true)
            × (guarded (holds_any (lit "admin" ∷ lit "super_admin" ∷ [])) c v ≡ passed c)
          ⊎ (holds (as_texts v) (lit "admin") || holds (as_texts v) (lit "super_admin") ≡ false)
            × (status : ℕ) × (guarded (holds_any (lit "admin" ∷ lit "super_admin" ∷ [])) c v
                ≡ refused status)
    decided none = inr (refl, 403, refl)
    decided (some (int i)) = inr (refl, 500, refl)
    decided (some (text t)) = inr (refl, 500, refl)
    decided (some (flag b)) = inr (refl, 500, refl)
    decided (some other) = inr (refl, 500, refl)
    decided (some (texts held)) =
        let same = holds_any-two (lit "admin") (lit "super_admin") held in
        elim (Bool-cases (holds_any (lit "admin" ∷ lit "super_admin" ∷ []) held)) [
          | inl yes_ ↦ inl (same ∙ yes_, rw yes_ refl)
          | inr no_ ↦ inr (same ∙ no_, 403, rw no_ refl)
        ]
