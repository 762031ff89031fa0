-- ===== src/Updater.antt =====
-- server/internal/updater/updater.go: the state of the updater. What GitHub answers, and whether the
-- steps of a download work, are arguments; the text of an error is its fixed beginning. The files
-- of the machine and `encoding/json` are the record `Disk`. The timer of Start and the script that
-- Restart runs are left out.
pub mod Versions
pub mod Available
pub mod Cache
mod Tests
use cogitator.Base.{
  ℕ, ◌≡◌, Bool, true, false, not, ◌||◌, ◌&&◌, List, [], ◌∷◌, ◌++◌, Option, none, some,
  if◌then◌else◌,
}
use cogitator.Base.Texts.{Bytes, codes, is_empty, to_lower, has_prefix, has_suffix, contains}
use cogitator.Base.Numbers.{print}
use cogitator.Updater.Versions.{Semver, parse_semver, newer_than}

pub record Config : Type 0 where
  pub owner : Bytes
  pub repo : Bytes
  pub current : Bytes
  pub token : Bytes
  pub cache_path : Bytes
  pub skipped_version : Bytes

pub record ReleaseInfo : Type 0 where
  pub tag : Bytes
  pub name : Bytes
  pub url : Bytes
  pub asset_url : Bytes
  pub asset_name : Bytes
  pub published_at : Bytes

pub record Status : Type 0 where
  pub current : Bytes
  pub latest : Option ReleaseInfo
  pub update_available : Bool
  pub can_auto_update : Bool
  pub checking : Bool
  pub downloading : Bool
  pub ready : Bool
  pub error : Bytes
  pub skipped_version : Bytes

pub record ReleaseCache : Type 0 where
  pub latest : Option ReleaseInfo
  pub update_available : Bool

-- What the program uses of the machine: the content of each file that can be read, and the files that
-- `os.WriteFile` leaves when it writes to a path, which need not hold what was written, since its
-- error is dropped; `encoding/json`, whose two directions may fail.
pub record Disk : Type 0 where
  pub files : Bytes → Option Bytes
  pub write : (Bytes → Option Bytes) → Bytes → Bytes → Bytes → Option Bytes
  pub marshal : ReleaseCache → Option Bytes
  pub unmarshal : Bytes → Option ReleaseCache

pub record Updater : Type 0 where
  pub cfg : Config
  pub status : Status
  pub new_app_path : Bytes
  pub extract_dir : Bytes
  pub disk : Disk

pub record GithubAsset : Type 0 where
  pub id : ℕ
  pub name : Bytes
  pub browser_download_url : Bytes

pub record GithubRelease : Type 0 where
  pub tag_name : Bytes
  pub name : Bytes
  pub html_url : Bytes
  pub published_at : Bytes
  pub assets : List GithubAsset

-- Whether the first version is the newer one, where both can be read.
abbrev pub compared : Option Semver → Option Semver → Bool
compared (some v) (some w) = newer_than v w
compared _ _ = false

abbrev pub revalidated : Bytes → Option ReleaseInfo → Bool
revalidated current none = false
revalidated current (some info) = compared (parse_semver info.tag) (parse_semver current)

abbrev pub cached : Updater → Option ReleaseCache → Updater
cached u none = u
cached u (some c) = record u {
  status = record u.status {
    latest = c.latest;
    update_available = revalidated u.cfg.current c.latest;
  };
}

-- What can be decoded of the file, where there is one.
abbrev pub decoded : Disk → Option Bytes → Option ReleaseCache
decoded disk none = none
decoded disk (some content) = disk.unmarshal content

unfoldable pub load_cache : Updater → Updater
load_cache u =
    if is_empty u.cfg.cache_path
    then u
    else cached u (decoded u.disk (u.disk.files u.cfg.cache_path))

abbrev pub initial : Config → Disk → Bool → Updater
initial cfg disk in_bundle = record {
  cfg = cfg;
  status = record {
    current = cfg.current;
    latest = none;
    update_available = false;
    can_auto_update = in_bundle;
    checking = false;
    downloading = false;
    ready = false;
    error = [];
    skipped_version = cfg.skipped_version;
  };
  new_app_path = [];
  extract_dir = [];
  disk = disk;
}

-- With the files of the machine, and whether the program runs from an app bundle.
unfoldable pub new : Config → Disk → Bool → Updater
new cfg disk in_bundle = load_cache (initial cfg disk in_bundle)

abbrev pub cache_of : Updater → ReleaseCache
cache_of u = record { latest = u.status.latest; update_available = u.status.update_available }

abbrev pub written : Updater → Option Bytes → Updater
written u none = u
written u (some content) = record u {
  disk = record u.disk { files = u.disk.write u.disk.files u.cfg.cache_path content };
}

unfoldable pub save_cache : Updater → Updater
save_cache u = if is_empty u.cfg.cache_path then u else written u (u.disk.marshal (cache_of u))

abbrev pub set_error : Updater → Bytes → Updater
set_error u message = record u { status = record u.status { error = message } }

unfoldable pub set_skipped_version : Updater → Bytes → Updater
set_skipped_version u v = record u { status = record u.status { skipped_version = v } }

-- The architecture of an asset's name, and the last universal one as what is left.
abbrev pub arch_name : Bool → Bytes
arch_name true = codes "arm64"
arch_name false = codes "x86_64"

abbrev pub is_bundle : Bytes → Bool
is_bundle name = has_prefix name (codes "cogitator-") && has_suffix name (codes ".zip")

abbrev pub find_from : Bytes → Option GithubAsset → List GithubAsset → Option GithubAsset
find_from arch universal [] = universal
find_from arch universal (a ∷ assets) =
    let name = to_lower a.name in
    let rest = find_from arch universal assets in
    let rest_here = find_from arch (some a) assets in
    if not (is_bundle name)
    then rest
    else if contains name arch
    then some a
    else if contains name (codes "universal")
    then rest_here
    else rest

unfoldable pub find_asset : Bool → List GithubAsset → Option GithubAsset
find_asset is_arm64 assets = find_from (arch_name is_arm64) none assets

abbrev pub with_asset : Config → ReleaseInfo → Option GithubAsset → ReleaseInfo
with_asset cfg info none = info
with_asset cfg info (some a) = record info {
  asset_url =
      if is_empty cfg.token
      then a.browser_download_url
      else codes "https://api.github.com/repos/"
        ++ cfg.owner
        ++ codes "/"
        ++ cfg.repo
        ++ codes "/releases/assets/"
        ++ print a.id;
  asset_name = a.name;
}

abbrev pub info_of : Config → Bool → GithubRelease → ReleaseInfo
info_of cfg is_arm64 rel =
    with_asset cfg
      (record {
        tag = rel.tag_name;
        name = rel.name;
        url = rel.html_url;
        asset_url = [];
        asset_name = [];
        published_at = rel.published_at;
      })
      (find_asset is_arm64 rel.assets)

-- The answers of GitHub.
pub data Fetched : Type 0 where
  unreachable missing bad_status undecodable : Fetched
  release : GithubRelease → Fetched

abbrev pub versions : Updater → ReleaseInfo → Option Semver → Option Semver → Updater
versions u info none current = set_error u (codes "parse latest version")
versions u info (some latest) none = set_error u (codes "parse current version")
versions u info (some latest) (some current) = save_cache (record u {
  status = record u.status { latest = some info; update_available = newer_than latest current };
})

abbrev pub fetched : Updater → Bool → Fetched → Updater
fetched u is_arm64 unreachable = set_error u (codes "fetch release")
fetched u is_arm64 missing = u
fetched u is_arm64 bad_status = set_error u (codes "github api")
fetched u is_arm64 undecodable = set_error u (codes "decode release")
fetched u is_arm64 (release rel) =
    versions u (info_of u.cfg is_arm64 rel) (parse_semver rel.tag_name) (parse_semver u.cfg.current)

abbrev pub checking : Updater → Bool → Updater
checking u b = record u { status = record u.status { checking = b } }

unfoldable pub check_now : Updater → Bool → Fetched → Updater
unfolding save_cache
check_now u is_arm64 answer =
    let start = record u { status = record u.status { checking = true; error = [] } } in
    checking (fetched start is_arm64 answer) false

-- How a download goes: it fails at a step, or extracts a bundle to a directory.
pub data Fetching : Type 0 where
  download_fails temp_dir_fails extract_fails incomplete : Fetching
  extracted : Bytes → Fetching

abbrev pub downloading : Updater → Bool → Updater
downloading u b = record u { status = record u.status { downloading = b } }

abbrev pub landed : Updater → Fetching → Updater × Bool
landed u download_fails = (set_error u (codes "download"), false)
landed u temp_dir_fails = (u, false)
landed u extract_fails = (u, false)
landed u incomplete = (u, false)
landed u (extracted dir) = (
  record u {
    new_app_path = dir ++ codes "/Cogitator.app";
    extract_dir = dir;
    status = record u.status { ready = true };
  },
  true,
)

abbrev pub fetch : Updater → Fetching → Updater × Bool
fetch u f =
    let (done, works) =
      landed (record u { status = record u.status { downloading = true; error = [] } }) f in
    (downloading done false, works)

abbrev pub has_asset : Option ReleaseInfo → Bool
has_asset none = false
has_asset (some info) = not (is_empty info.asset_url)

abbrev pub cleared : Updater → Updater
cleared u = record u {
  status = record u.status { ready = false };
  new_app_path = [];
  extract_dir = [];
}

-- `there` says that the file of an earlier download still exists; the result says that no error
-- was returned.
unfoldable pub download : Updater → Bool → Fetching → Updater × Bool
download u there f =
    if not (u.status.update_available && has_asset u.status.latest)
    then (u, false)
    else if not u.status.ready
    then fetch u f
    else if not (is_empty u.new_app_path) && there
    then (u, true)
    else fetch (cleared u) f

-- The bundle that a restart installs, `none` where it refuses.
unfoldable pub restart : Updater → Bool → Option Bytes
restart u in_bundle =
    if not u.status.ready || is_empty u.new_app_path || not in_bundle
    then none
    else some u.new_app_path
