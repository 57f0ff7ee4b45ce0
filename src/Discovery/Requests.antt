-- ===== src/Discovery/Requests.antt =====
-- The other requests of internal/domain/discovery/types.go: suggestions, searches and clicks.
-- `strings.ToLower` is a parameter.
use zentora_backend.Prelude.{Option, none, some, List, [], ◌∷◌}
use zentora_backend.Prelude.Int.{ℤ, pos, leb_ℤ, ltb_ℤ}
use zentora_backend.Text.{Text, is_empty, trim_space}
use zentora_backend.Discovery.{
  Result, ok, err, ◌>>◌, refuse_if, is_bad_id, clamp_limit, trim_session, invalid_request,
  invalid_user_id, invalid_search_event, invalid_product_id, invalid_position,
  negative_result_count, query_required, prefix_required,
}

pub record SuggestRequest : Type 0 where
  pub prefix : Text
  pub limit : ℤ

pub validate_suggest : Option SuggestRequest → Result SuggestRequest
validate_suggest none = err invalid_request
validate_suggest (some r) = do
  refuse_if (is_empty (trim_space r.prefix)) prefix_required
  ok (record { prefix = trim_space r.prefix; limit = clamp_limit (pos 10) (pos 20) r.limit })

-- The score of a result is not looked at.
pub record SearchResultPosition : Type 0 where
  pub product_id : ℤ
  pub position : ℤ

pub record SearchEvent : Type 0 where
  pub query : Text
  pub normalized_query : Text
  pub user_id : Option ℤ
  pub session_id : Option Text
  pub result_count : ℤ
  pub results : List SearchResultPosition

pub check_results : List SearchResultPosition → Result (Unit {0})
check_results [] = ok tt
check_results (r ∷ rs) = do
  refuse_if (leb_ℤ r.product_id (pos 0)) invalid_product_id
  refuse_if (leb_ℤ r.position (pos 0)) invalid_position
  check_results rs

module _ (to_lower : Text → Text) where
  pub validate_search : Option SearchEvent → Result SearchEvent
  validate_search none = err invalid_request
  validate_search (some e) = do
    refuse_if (is_empty (trim_space e.query)) query_required
    refuse_if (is_bad_id e.user_id) invalid_user_id
    refuse_if (ltb_ℤ e.result_count (pos 0)) negative_result_count
    check_results e.results
    ok (record e {
      query = trim_space e.query;
      normalized_query = to_lower (trim_space e.query);
      session_id = trim_session e.session_id;
    })

pub record SearchClickEvent : Type 0 where
  pub search_event_id : ℤ
  pub product_id : ℤ
  pub position : ℤ
  pub user_id : Option ℤ
  pub session_id : Option Text

pub validate_click : Option SearchClickEvent → Result SearchClickEvent
validate_click none = err invalid_request
validate_click (some e) = do
  refuse_if (leb_ℤ e.search_event_id (pos 0)) invalid_search_event
  refuse_if (leb_ℤ e.product_id (pos 0)) invalid_product_id
  refuse_if (leb_ℤ e.position (pos 0)) invalid_position
  refuse_if (is_bad_id e.user_id) invalid_user_id
  ok (record e { session_id = trim_session e.session_id })
