-- ===== src/Accounts/Permissions.antt =====
-- Roles and permissions (internal/repository/postgres/auth_repo.go): the queries of GetUserRoles and
-- GetUserPermissions over their tables. In a condition of SQL, AND binds tighter than OR.
mod Tests
use zentora_backend.Prelude.{
  ℕ, ◌≡◌, refl, sym, ap, ◌∙◌, All, inl, inr, Bool, true, false, ◌&&◌, ◌||◌, not, Option, none, some,
  List, [], ◌∷◌, ◌++◌, if◌then◌else◌, ltb, any, arith, Bool-cases,
}
use zentora_backend.Prelude.Int.{ℤ, ◌==ℤ◌}
use zentora_backend.Text.{Text, text_eq, text_eq_iff, text_eq_refl}

pub record Role : Type 0 where
  pub id : ℤ
  pub name : Text
  pub is_active : Bool

pub record Permission : Type 0 where
  pub id : ℤ
  pub name : Text
  pub is_active : Bool

pub record IdentityRole : Type 0 where
  pub identity_id : ℤ
  pub role_id : ℤ
  pub is_active : Bool
  pub expires_at : Option ℕ

pub record RolePermission : Type 0 where
  pub role_id : ℤ
  pub permission_id : ℤ

pub record IdentityPermission : Type 0 where
  pub identity_id : ℤ
  pub permission_id : ℤ
  pub is_granted : Bool
  pub expires_at : Option ℕ

pub record Grants : Type 0 where
  pub roles : List Role
  pub permissions : List Permission
  pub identity_roles : List IdentityRole
  pub role_permissions : List RolePermission
  pub identity_permissions : List IdentityPermission

-- `expires_at IS NULL OR expires_at > NOW()`
abbrev pub lasts : ℕ → Option ℕ → Bool
lasts now none = true
lasts now (some t) = ltb now t

abbrev pub has_assignment : ℕ → ℤ → IdentityRole → Bool
has_assignment now id ir = ir.identity_id ==ℤ id && (ir.is_active && lasts now ir.expires_at)

-- The names of the active roles that an assignment joins.
abbrev pub joined : IdentityRole → List Role → List Text
joined ir [] = []
joined ir (r ∷ rs) =
    let rest = joined ir rs in if ir.role_id ==ℤ r.id && r.is_active then r.name ∷ rest else rest

abbrev pub roles_from : ℕ → ℤ → List Role → List IdentityRole → List Text
roles_from now id rs [] = []
roles_from now id rs (ir ∷ irs) =
    let rest = roles_from now id rs irs in
    if has_assignment now id ir then joined ir rs ++ rest else rest

unfoldable pub get_user_roles : ℕ → ℤ → Grants → List Text
get_user_roles now id g = roles_from now id g.roles g.identity_roles

-- `p.id IN` the permissions of the identity's roles, of its grants, of its revocations.
pub by_role : ℕ → ℤ → Grants → Permission → Bool
by_role now id g p =
    any
      (λ ir.
        has_assignment now id ir
        && any (λ rp. ir.role_id ==ℤ rp.role_id && p.id ==ℤ rp.permission_id) g.role_permissions)
      g.identity_roles

abbrev pub listed : ℕ → ℤ → Bool → Grants → Permission → Bool
listed now id granted g p =
    any
      (λ ip.
        ip.identity_id ==ℤ id
        && (if granted then ip.is_granted else not ip.is_granted)
        && lasts now ip.expires_at
        && p.id ==ℤ ip.permission_id)
      g.identity_permissions

pub by_grant : ℕ → ℤ → Grants → Permission → Bool
by_grant now id g p = listed now id true g p

pub is_revoked : ℕ → ℤ → Grants → Permission → Bool
is_revoked now id g p = listed now id false g p

-- The condition of the query, as it stands.
abbrev pub selected : ℕ → ℤ → Grants → Permission → Bool
selected now id g p =
    by_role now id g p || (by_grant now id g p && (not (is_revoked now id g p) && p.is_active))

-- DISTINCT, in the order of the table.
abbrev pub with_name : Text → List Text → List Text
with_name n ns = if any (λ m. text_eq m n) ns then ns else n ∷ ns

abbrev pub names_of : ℕ → ℤ → Grants → List Permission → List Text
names_of now id g [] = []
names_of now id g (p ∷ ps) =
    let rest = names_of now id g ps in if selected now id g p then with_name p.name rest else rest

unfoldable pub get_user_permissions : ℕ → ℤ → Grants → List Text
get_user_permissions now id g = names_of now id g g.permissions

abbrev pub holds : List Text → Text → Bool
holds ns n = any (λ m. text_eq m n) ns

holds-with_name :
    (a n : Text) (ns : List Text) → holds (with_name a ns) n ≡ (text_eq a n || holds ns n)
holds-with_name a n ns = elim (Bool-cases (holds ns a)) [
  | inl e ↦ elim (Bool-cases (text_eq a n)) [
    | inl s ↦
        let same : a ≡ n = (text_eq_iff a n).0 s in
        let there : holds ns n ≡ true = ap (holds ns) (sym same) ∙ e in rw (e, s, there) refl
    | inr s ↦ rw (e, s) refl
  ]
  | inr e ↦ rw e refl
]

holds-names_of :
    (now : ℕ) (id : ℤ) (g : Grants) (n : Text) (ps : List Permission)
    → holds (names_of now id g ps) n ≡ any (λ p. text_eq p.name n && selected now id g p) ps
holds-names_of now id g n [] = refl
holds-names_of now id g n (p ∷ ps) =
    let rest = holds-names_of now id g n ps in
    elim (Bool-cases (selected now id g p)) [
      | inl e ↦ rw e (holds-with_name p.name n (names_of now id g ps) ∙ ground (arith, rest))
      | inr e ↦ rw e ground (arith, rest)
    ]

-- A name is listed exactly if a permission of that name satisfies the query's condition.
pub holds-get_user_permissions :
    (now : ℕ) (id : ℤ) (g : Grants) (n : Text)
    → holds (get_user_permissions now id g) n
      ≡ any (λ p. text_eq p.name n && selected now id g p) g.permissions
unfolding get_user_permissions
holds-get_user_permissions now id g n = holds-names_of now id g n g.permissions

any-middle :
    (f : Permission → Bool) (before : List Permission) (p : Permission) (after : List Permission)
    → f p ≡ true
    → any f (before ++ p ∷ after) ≡ true
any-middle f [] p after h = ground (arith, h)
any-middle f (b ∷ before) p after h = ground (arith, any-middle f before p after h)

-- A permission of the table that one of the identity's roles gives is listed, whether it is active or
-- not, and whatever revocations of it the identity has.
pub get_user_permissions-by_role :
    (now : ℕ) (id : ℤ) (g : Grants) (before : List Permission) (p : Permission)
    (after : List Permission)
    → g.permissions ≡ before ++ p ∷ after
    → by_role now id g p ≡ true
    → holds (get_user_permissions now id g) p.name ≡ true
get_user_permissions-by_role now id g before p after split given =
    let same = text_eq_refl p.name in
    let chosen : (text_eq p.name p.name && selected now id g p) ≡ true = rw (same, given) refl in
    holds-get_user_permissions now id g p.name
    ∙ ap (any (λ q. text_eq q.name p.name && selected now id g q)) split
    ∙ any-middle (λ q. text_eq q.name p.name && selected now id g q) before p after chosen

-- A name is not listed when every permission of that name is revoked and given by no role.
pub get_user_permissions_revoked :
    (now : ℕ) (id : ℤ) (g : Grants) (n : Text)
    → All
        (λ p. (text_eq p.name n && (by_role now id g p || not (is_revoked now id g p))) ≡ false)
        g.permissions
    → holds (get_user_permissions now id g) n ≡ false
get_user_permissions_revoked now id g n h =
    holds-get_user_permissions now id g n ∙ none_of g.permissions h
  where
    none_of :
        (ps : List Permission)
        → All
            (λ p. (text_eq p.name n && (by_role now id g p || not (is_revoked now id g p))) ≡ false)
            ps
        → any (λ p. text_eq p.name n && selected now id g p) ps ≡ false
    none_of [] k = refl
    none_of (p ∷ ps) k = ground (arith, k.0, none_of ps k.1)
