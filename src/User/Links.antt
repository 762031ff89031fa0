-- ===== src/User/Links.antt =====
-- server/internal/user/store.go: the links of social logins to accounts.
use cogitator.Base.{
  ℕ, Bool, not, ◌||◌, ◌&&◌, List, [], ◌∷◌, ◌++◌, anyb, filterb, if◌then◌else◌, String,
}
use cogitator.Base.Eqs.{◌===◌, string_eq}
use cogitator.Base.Texts.{Bytes}
use cogitator.Base.Results.{Result, ok, err, ◌>>=◌}
use cogitator.Base.Rows.{first_where, delete_where}
use cogitator.Base.Sorting.{sort_by}
use cogitator.User.{
  Store, User, OauthLink, Error, database, not_found, link_not_found, has_id, or_error, get,
}

abbrev pub is_link : String → String → OauthLink → Bool
is_link provider subject l = l.provider === provider && l.subject === subject

abbrev pub of_user : String → OauthLink → Bool
of_user id l = l.user_id === id

abbrev pub of_provider : String → String → OauthLink → Bool
of_provider id provider l = of_user id l && l.provider === provider

abbrev pub new_link : String → String → String → String → Bytes → ℕ → OauthLink
new_link link_id user_id provider subject email now = record {
  id = link_id;
  user_id = user_id;
  provider = provider;
  subject = subject;
  email = email;
  created_at = now;
}

-- A pair of provider and subject has one link, and a link has an account.
unfoldable pub link_oauth :
    Store → String → String → String → String → Bytes → ℕ → Store × Result Error (Unit {0})
link_oauth s link_id user_id provider subject email now =
    if anyb (λ l. l.id === link_id) s.links
      || anyb (is_link provider subject) s.links
      || not (anyb (has_id user_id) s.users)
    then (s, err database)
    else (
      record s { links = s.links ++ new_link link_id user_id provider subject email now ∷ [] },
      ok tt,
    )

-- The JOIN on a pair that has one link at most.
unfoldable pub get_by_oauth_link : Store → String → String → Result Error User
get_by_oauth_link s provider subject =
    or_error not_found (first_where (is_link provider subject) s.links) >>= λ l. get s l.user_id

unfoldable pub list_oauth_links : Store → String → List OauthLink
list_oauth_links s id = sort_by (λ l. l.created_at) (filterb (of_user id) s.links)

unfoldable pub unlink_oauth : Store → String → String → Store × Result Error (Unit {0})
unlink_oauth s id provider =
    if anyb (of_provider id provider) s.links
    then (record s { links = delete_where (of_provider id provider) s.links }, ok tt)
    else (s, err link_not_found)

unfoldable pub has_password : Store → String → Result Error Bool
has_password s id =
    or_error not_found (first_where (has_id id) s.users) >>= λ u. ok (not (u.password_hash === ""))
