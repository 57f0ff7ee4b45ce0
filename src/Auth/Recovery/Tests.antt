-- ===== src/Auth/Recovery/Tests.antt =====
-- A password that is reset with a token, twice.
use zentora_backend.Prelude.{◌≡◌, refl, false, none, some, [], ◌∷◌, arith}
use zentora_backend.Prelude.Int.{pos}
use zentora_backend.Text.{Text, lit}
use zentora_backend.Redis.Instance.{Memory, memory}
use zentora_backend.Tokens.Instance.{keeper, generator, verifier}
use zentora_backend.Sessions.Manager.{Stored}
use zentora_backend.Accounts.Verifications.{VerificationToken}
use zentora_backend.Auth.{Result, ok, err, invalid_token}
use zentora_backend.Auth.Recovery.{Desk, RecoveryFailures, reset_password}
use zentora_backend.Auth.Recovery.Single.{reset_password_once}
use zentora_backend.Auth.Tests.{start, fine}

abbrev working : RecoveryFailures
working = record {
  service = fine;
  token_finds = false;
  token_inserts = false;
  token_marks = false;
  cache_sets = false;
  cache_dels = false;
}

abbrev desk : Desk (Memory Text) (Memory Stored)
desk = record {
  service = start;
  tokens =
      record {
        id = pos 9;
        identity_id = pos 7;
        token_type = lit "password_reset";
        token = lit "r";
        code = none;
        expires_at = 4000;
        used_at = none;
        verified_at = none;
        attempts = 0;
      }
      ∷ [];
  mails = [];
}

abbrev reset_once : Result (Unit {0}) × Desk (Memory Text) (Memory Stored)
reset_once =
    reset_password memory memory keeper generator verifier working 500 (lit "r")
      (some (lit "hidden")) desk

was_reset : reset_once ≡ (ok tt, reset_once.1)
unfolding reset_password zentora_backend.Accounts.Verifications.find_verification_token
    zentora_backend.Accounts.find_provider_by_identity_and_type
    zentora_backend.Auth.Logout.logout_all_sessions
    zentora_backend.Sessions.Manager.invalidate_all_user_sessions
was_reset = refl

reset_password_once_example :
    reset_password memory memory keeper generator verifier working 600
      (lit "r")
      (some (lit "other"))
      reset_once.1
    ≡ (err invalid_token, reset_once.1)
reset_password_once_example =
    reset_password_once memory memory keeper generator verifier working working 500 600 (lit "r")
      (some (lit "hidden")) (some (lit "other")) desk reset_once.1 refl (omega arith) was_reset
