-- ===== src/Updater/Tests.antt =====
-- Checks and downloads of a small installation.
use cogitator.Base.{◌≡◌, refl, true, [], ◌∷◌, Option, none, some, if◌then◌else◌}
use cogitator.Base.Texts.{Bytes, bytes_eq, codes, has_prefix, has_suffix, contains}
use cogitator.Updater.{
  Config, Updater, Disk, ReleaseInfo, ReleaseCache, GithubAsset, GithubRelease, new, load_cache,
  save_cache, check_now, download, restart, find_asset, release, extracted, revalidated,
}
use cogitator.Updater.Versions.{parse_semver, newer_than}
use cogitator.Updater.Available.{IsValid, here, next, check, load, Reach-IsValid}
use cogitator.Updater.Cache.{new-save_cache}

runs : Unit {0}
unfolding new load_cache save_cache check_now download restart find_asset has_prefix has_suffix
    contains parse_semver newer_than
runs = tt

abbrev config : Config
config = record {
  owner = codes "cogitatorai";
  repo = codes "cogitator";
  current = codes "v1.2.0";
  token = [];
  cache_path = codes "update_cache.json";
  skipped_version = [];
}

refusals :
    (parse_semver (codes "1.2") ≡ none)
    × (parse_semver (codes "dev") ≡ none)
    × (parse_semver (codes "1..2") ≡ none)
unfolding parse_semver
refusals = (refl, refl, refl)

abbrev asset : GithubAsset
asset = record {
  id = 7;
  name = codes "Cogitator-1.3.0-arm64.zip";
  browser_download_url = codes "https://example.org/7";
}

abbrev release13 : GithubRelease
release13 = record {
  tag_name = codes "v1.3.0";
  name = codes "1.3";
  html_url = codes "https://example.org";
  published_at = codes "today";
  assets = asset ∷ [];
}

-- The file holds the tag of the release of that installation.
abbrev decode : Bytes → Option ReleaseCache
decode tag = some (record {
  latest = some (record {
    tag = tag;
    name = codes "1.3";
    url = codes "https://example.org";
    asset_url = codes "https://example.org/7";
    asset_name = codes "Cogitator-1.3.0-arm64.zip";
    published_at = codes "today";
  });
  update_available = true;
})

abbrev tag_of : Option ReleaseInfo → Option Bytes
tag_of none = none
tag_of (some info) = some info.tag

abbrev disk : Disk
disk = record {
  files = λ p. none;
  write = λ files path content p. if bytes_eq path p then some content else files p;
  marshal = λ c. tag_of c.latest;
  unmarshal = decode;
}

abbrev started : Updater
started = new config disk true

abbrev offered : Updater
offered = check_now started true (release release13)

abbrev loaded : Updater
loaded = (download offered true (extracted (codes "/tmp/a"))).0

Reach-IsValid_example : IsValid loaded
Reach-IsValid_example = Reach-IsValid config disk true (
    next (next here (check started true (release release13)))
      (load offered true (extracted (codes "/tmp/a"))))

new-save_cache_example :
    let v = new config (save_cache offered).disk true in
    (v.status.latest ≡ offered.status.latest)
    × (v.status.update_available ≡ revalidated config.current offered.status.latest)
    × (new config (save_cache offered).disk true).status.update_available
      ≡ offered.status.update_available
unfolding runs
new-save_cache_example =
    new-save_cache offered config true (codes "v1.3.0")
      (record { offer = refl; idle = (refl, refl) }) refl refl refl refl refl
