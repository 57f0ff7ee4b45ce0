-- ===== src/Access/Tests.antt =====
-- A token of an administrator, and the theorems at it.
use zentora_backend.Prelude.{
  ◌≡◌, refl, false, Option, none, some, [], ◌∷◌, arith, Bool-cases, inl, inr, if◌then◌else◌,
}
use zentora_backend.Prelude.Int.{pos}
use zentora_backend.Text.{Text, lit, text_eq}
use zentora_backend.Access.{
  text, texts, Context, Claims, Request, passed, get, split_words, require_role, require_all_roles,
  extract_token, admitted, auth, admin_only,
}
use zentora_backend.Access.Guards.{has_key, IsAdmin, admin_only-IsAdmin}

abbrev boss : Claims
boss = record {
  identity_id = pos 4;
  id = lit "j1";
  roles = lit "editor" ∷ lit "admin" ∷ [];
  permissions = [];
  device = lit "web";
  session_purpose = lit "general";
  is_temp = false;
  extra_data = (lit "email", text (lit "boss@shop.example")) ∷ [];
}

abbrev validate : Text → Option Claims
validate t = if text_eq t (lit "tok") then some boss else none

abbrev asks : Request
asks = record { authorization = lit "Bearer tok"; query_token = [] }

validate_plain :
    (t : Text) (k : Claims)
    → validate t ≡ some k
    → (has_key (lit "roles") k.extra_data ≡ false)
      × (has_key (lit "identity_id") k.extra_data ≡ false)
validate_plain t k e = elim (Bool-cases (text_eq t (lit "tok"))) [
  | inl h ↦ let same : k ≡ boss = ground arith in rw same (refl, refl)
  | inr h ↦ absurd (ground arith)
]

enters : admin_only text_eq validate asks [] ≡ passed (admitted text_eq validate boss [])
unfolding admin_only auth extract_token split_words require_role get
enters = refl

admin_only-IsAdmin_example : IsAdmin text_eq validate asks (admitted text_eq validate boss [])
admin_only-IsAdmin_example = admin_only-IsAdmin text_eq validate asks [] validate_plain enters

abbrev desk : Context
desk = (lit "roles", texts (lit "editor" ∷ lit "admin" ∷ [])) ∷ []

passes_all : require_all_roles (lit "admin" ∷ lit "editor" ∷ []) desk ≡ passed desk
unfolding require_all_roles get
passes_all = refl
