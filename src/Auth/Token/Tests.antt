-- ===== src/Auth/Token/Tests.antt =====
-- Tokens of one user at concrete inputs, with a codec that writes the fields of a session one after
-- the other: texts character by character, numbers in unary.
use kratos_kit.Base.{ℕ, ◌≡◌, refl, true, ◌||◌, some, [], ◌∷◌, ◌==◌, arith}
use kratos_kit.Base.Int.{pos}
use kratos_kit.Base.Dict.{lookup}
use kratos_kit.Base.Time.{zero_time, at}
use kratos_kit.Cache.Memory.{Memory, new_memory}
use kratos_kit.Cache.Memory.Hashes.View as HashView
use kratos_kit.Cache.Memory.Hashes.Writes.{new_memory-IsPersistent}
use kratos_kit.Auth.Token.{
  TokenSession, UserToken, done, failed, session_not_found, accepts, index_key, get_token_session,
}
use kratos_kit.Auth.Token.Calls.{
  is_access_token_valid, generate_token_for_session, generate_access_token_for_session,
  remove_session,
}
use kratos_kit.Auth.Token.Listing.{IsReady, IsReadable, any_live, marked}
use kratos_kit.Auth.Token.Validity.{entries, own_token, is_access_token_valid_lem}
use kratos_kit.Auth.Token.Login.{login-valid}
use kratos_kit.Auth.Token.Rotation.{rotation-valid}
use kratos_kit.Auth.Token.Revocation.{expires, sets, calls, remove_session-final}
use kratos_kit.Auth.Token.Texts.{put_session, take-put_session, codec}

abbrev tokens : UserToken
tokens = record {
  access_prefix = "a";
  refresh_prefix = "r";
  access_expires = pos 100;
  refresh_expires = pos 900;
}

abbrev first_session : TokenSession
first_session = record {
  session_id = "s1";
  access_token = "A";
  refresh_token = "R";
  access_expires_at = pos 60;
  refresh_expires_at = pos 900;
  previous_access_token = "";
  previous_access_expires_at = pos 0;
}

-- One session in the cache, with its mark
abbrev logged_in : Memory
logged_in = record {
  str_items = some (
      ("a:session:7:s1", record { value = "1"; expired = at 900; created_at = 0; updated_at = 0 })
      ∷ []);
  map_items = some (
      (
        "a:session-index:7",
        record {
          value = ("s1", put_session first_session) ∷ [];
          expired = zero_time;
          created_at = 0;
          updated_at = 0;
        },
      )
      ∷ []);
}

logged_in-IsReady : IsReady logged_in
unfolding lookup
logged_in-IsReady = record {
  strings = λ q. cc;
  hashes = record { connected = λ q. cc; forever = λ k item p. ground arith };
}

logged_in-IsReadable :
    (t : ℕ) → IsReadable codec tokens t (pos 7) (entries codec tokens t (pos 7) logged_in)
unfolding lookup
logged_in-IsReadable t = ((first_session, take-put_session first_session), tt)

is_access_token_valid_lem_example :
    (is_access_token_valid codec tokens 30 (pos 7) "A" logged_in).1
    ≡ (own_token codec tokens 30 (pos 7) logged_in == "A")
      || any_live codec tokens 30
          (pos 7)
          (accepts 30 "A")
          (entries codec tokens 30 (pos 7) logged_in)
          logged_in
is_access_token_valid_lem_example =
    is_access_token_valid_lem codec tokens 30 (pos 7) "A" logged_in refl logged_in-IsReady
      (logged_in-IsReadable 30)

new_memory-IsReady : IsReady new_memory
new_memory-IsReady = record { strings = λ q. cc; hashes = new_memory-IsPersistent }

new_memory-IsReadable :
    (t : ℕ) → IsReadable codec tokens t (pos 7) (entries codec tokens t (pos 7) new_memory)
unfolding lookup
new_memory-IsReadable t = tt

login-valid_example :
    ((generate_token_for_session codec tokens 10 (pos 7) "s1" "A" "R" new_memory).1
      ≡ done ("A", "R"))
    × ((is_access_token_valid codec tokens 50
          (pos 7)
          "A"
          (generate_token_for_session codec tokens 10 (pos 7) "s1" "A" "R" new_memory).0).1
        ≡ true)
login-valid_example =
    login-valid codec tokens (pos 7) 10 100 50 "s1" "A" "R" new_memory refl refl refl (omega arith)
      (omega arith) new_memory-IsReady (new_memory-IsReadable 50)

marked_there : marked codec tokens 20 (pos 7) "s1" logged_in ≡ true
unfolding lookup
marked_there = refl

listed_there :
    HashView.view 20 (index_key codec tokens (pos 7)) "s1" logged_in
    ≡ some (put_session first_session)
unfolding lookup
listed_there = refl

rotation-valid_example :
    (let (s', answer) =
        generate_access_token_for_session codec tokens 20 (pos 7) "s1" "B" logged_in in
      (answer ≡ done "B")
      × ((is_access_token_valid codec tokens 110 (pos 7) "B" s').1 ≡ true)
      × ((is_access_token_valid codec tokens 50 (pos 7) "A" s').1 ≡ true))
rotation-valid_example =
    rotation-valid codec tokens (pos 7) 20 100 110 50 first_session "B" logged_in refl refl refl
      refl refl (omega arith) (omega arith) logged_in-IsReady marked_there listed_there
      (omega arith) (logged_in-IsReadable 110) (omega arith) (omega arith) refl
      (logged_in-IsReadable 50)

remove_session-final_example :
    (get_token_session codec tokens 40 (pos 7) "s1" (
      calls
        (expires 35 "a:session:7:s1" (pos 100) ∷ sets 36 "other" "1" (pos 9) ∷ [])
        (remove_session codec tokens 30 (pos 7) "s1" logged_in).0)).1
    ≡ failed session_not_found
remove_session-final_example =
    remove_session-final codec tokens (pos 7) "s1" 30 40
      (expires 35 "a:session:7:s1" (pos 100) ∷ sets 36 "other" "1" (pos 9) ∷ []) logged_in
      (refl, tt)
