-- ===== src/Api/Social/Tests.antt =====
-- Links of the household.
use cogitator.Base.{◌≡◌, refl, ◌⊎◌, true, some, anyb}
use cogitator.Base.Results.{ok}
use cogitator.User.{Store}
use cogitator.User.Links.{of_user, list_oauth_links, unlink_oauth, has_password}
use cogitator.User.Samples.{household}
use cogitator.Api.Auth.{reply}
use cogitator.Api.Social.{handle_unlink_oauth}
use cogitator.Api.Social.Unlink.{unlink-enters}

runs : Unit {0}
unfolding handle_unlink_oauth has_password list_oauth_links unlink_oauth
runs = tt

abbrev one_link : Store
one_link = (handle_unlink_oauth household (some "u2") "google").0

unlink-enters_example :
    (has_password one_link "u2" ≡ ok true) ⊎ (anyb (of_user "u2") one_link.links ≡ true)
unfolding runs
unlink-enters_example = unlink-enters household one_link "u2" "google" refl

last_link :
    (handle_unlink_oauth one_link (some "u2") "apple").1
    ≡ reply 400 "cannot unlink: account has no password and no other linked providers"
unfolding runs
last_link = refl
