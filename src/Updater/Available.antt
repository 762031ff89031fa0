-- ===== src/Updater/Available.antt =====
-- What the updater offers, and what it would install.
use mathlib.Core.Path.{ap, ◌∙◌}
use cogitator.Base.{
  ◌≡◌, refl, inl, inr, Bool, true, false, not, ◌&&◌, [], Option, none, some, Bool-cases, if_both,
  if◌then◌else◌,
}
use cogitator.Base.Texts.{Bytes, is_empty}
use cogitator.Updater.{
  Config, ReleaseInfo, ReleaseCache, Updater, GithubRelease, Fetched, unreachable, missing,
  bad_status, undecodable, release, Fetching, download_fails, temp_dir_fails, extract_fails,
  incomplete, extracted, revalidated, cached, initial, GithubAsset, load_cache, new, Disk, decoded,
  cache_of, written, save_cache, set_skipped_version, info_of, with_asset, find_asset, versions,
  check_now, fetch, has_asset, cleared, download, restart,
}
use cogitator.Updater.Versions.{Semver, parse_semver, newer_than}

-- What is offered is a release that is newer than the program, as far as both can be read; and no
-- check or download is under way.
pub record IsValid (u : Updater) : Type 0 where
  pub offer : u.status.update_available ≡ revalidated u.cfg.current u.status.latest
  pub idle : (u.status.checking ≡ false) × (u.status.downloading ≡ false)

-- The steps of the updater.
pub data Step : Updater → Updater → Type 0 where
  check : (u : Updater) (arm : Bool) (answer : Fetched) → Step u (check_now u arm answer)
  load : (u : Updater) (there : Bool) (f : Fetching) → Step u (download u there f).0
  skip : (u : Updater) (v : Bytes) → Step u (set_skipped_version u v)

pub data Reach (u : Updater) : Updater → Type 0 where
  here : Reach u u
  next : {v w : Updater} → Reach u v → Step v w → Reach u w

new-IsValid : (cfg : Config) (disk : Disk) (bundle : Bool) → IsValid (new cfg disk bundle)
unfolding new load_cache
new-IsValid cfg disk bundle = elim (Bool-cases (is_empty cfg.cache_path)) [
  | inl without ↦ rw without (record { offer = refl; idle = (refl, refl) })
  | inr path ↦ rw path (from (decoded disk (disk.files cfg.cache_path)))
]
  where
    from : (d : Option ReleaseCache) → IsValid (cached (initial cfg disk bundle) d)
    from none = record { offer = refl; idle = (refl, refl) }
    from (some c) = record { offer = refl; idle = (refl, refl) }

tag_kept :
    (cfg : Config) (info : ReleaseInfo) (o : Option GithubAsset)
    → (with_asset cfg info o).tag ≡ info.tag
tag_kept cfg info none = refl
tag_kept cfg info (some a) = refl

save_cache-kept :
    (u : Updater)
    → ((save_cache u).status ≡ u.status)
      × ((save_cache u).cfg ≡ u.cfg)
      × ((save_cache u).new_app_path ≡ u.new_app_path)
unfolding save_cache
save_cache-kept u = elim (Bool-cases (is_empty u.cfg.cache_path)) [
  | inl without ↦ rw without (refl, refl, refl)
  | inr path ↦ rw path (kept (u.disk.marshal (cache_of u)))
]
  where
    kept :
        (o : Option Bytes)
        → ((written u o).status ≡ u.status)
          × ((written u o).cfg ≡ u.cfg)
          × ((written u o).new_app_path ≡ u.new_app_path)
    kept none = (refl, refl, refl)
    kept (some content) = (refl, refl, refl)

-- The offer alone, which no change of the flags touches.
abbrev Offers : Updater → Type 0
Offers u = u.status.update_available ≡ revalidated u.cfg.current u.status.latest

versions-Offers :
    (u : Updater) (info : ReleaseInfo) (latest current : Option Semver)
    → parse_semver info.tag ≡ latest
    → parse_semver u.cfg.current ≡ current
    → Offers u
    → Offers (versions u info latest current)
      × ((versions u info latest current).status.downloading ≡ u.status.downloading)
versions-Offers u info none current h k o = (o, refl)
versions-Offers u info (some v) none h k o = (o, refl)
versions-Offers u info (some v) (some w) h k o =
    let t = record u {
      status = record u.status { latest = some info; update_available = newer_than v w };
    } in
    let (status, cfg, path) = save_cache-kept t in rw (status, cfg) (rw (h, k) refl, refl)

check_now-IsValid :
    (u : Updater) (arm : Bool) (answer : Fetched) → IsValid u → IsValid (check_now u arm answer)
unfolding check_now
check_now-IsValid u arm unreachable v = record { offer = v.offer; idle = (refl, v.idle.1) }
check_now-IsValid u arm missing v = record { offer = v.offer; idle = (refl, v.idle.1) }
check_now-IsValid u arm bad_status v = record { offer = v.offer; idle = (refl, v.idle.1) }
check_now-IsValid u arm undecodable v = record { offer = v.offer; idle = (refl, v.idle.1) }
check_now-IsValid u arm (release rel) v =
    let start : Updater = record u { status = record u.status { checking = true; error = [] } } in
    let info = info_of u.cfg arm rel in
    let r =
      versions-Offers start info (parse_semver rel.tag_name) (parse_semver u.cfg.current)
        (ap parse_semver (tag_kept u.cfg _ (find_asset arm rel.assets))) refl v.offer in
    record { offer = r.0; idle = (refl, r.1 ∙ v.idle.1) }

landed-Offers : (u : Updater) (f : Fetching) → IsValid u → IsValid (fetch u f).0
landed-Offers u download_fails v = record { offer = v.offer; idle = (v.idle.0, refl) }
landed-Offers u temp_dir_fails v = record { offer = v.offer; idle = (v.idle.0, refl) }
landed-Offers u extract_fails v = record { offer = v.offer; idle = (v.idle.0, refl) }
landed-Offers u incomplete v = record { offer = v.offer; idle = (v.idle.0, refl) }
landed-Offers u (extracted dir) v = record { offer = v.offer; idle = (v.idle.0, refl) }

abbrev Kept : Updater × Bool → Type 0
Kept r = IsValid r.0

download-IsValid :
    (u : Updater) (there : Bool) (f : Fetching) → IsValid u → IsValid (download u there f).0
unfolding download
download-IsValid u there f v =
    elim (Bool-cases (u.status.update_available && has_asset u.status.latest)) [
      | inr nothing ↦ rw nothing v
      | inl offered ↦ rw offered (
          if_both Kept (not u.status.ready) (fetch u f)
            (if not (is_empty u.new_app_path) && there then (u, true) else fetch (cleared u) f)
            (λ h. landed-Offers u f v)
            (λ h.
              if_both Kept (not (is_empty u.new_app_path) && there) (u, true) (fetch (cleared u) f)
                (λ h. v)
                (λ h. landed-Offers (cleared u) f (record { offer = v.offer; idle = v.idle }))))
    ]

step-IsValid : {u v : Updater} → Step u v → IsValid u → IsValid v
unfolding set_skipped_version
step-IsValid (check u arm answer) h = check_now-IsValid u arm answer h
step-IsValid (load u there f) h = download-IsValid u there f h
step-IsValid (skip u v) h = record { offer = h.offer; idle = h.idle }

-- From a start with any files, each run of checks, downloads and skips keeps this: an update
-- is offered exactly when the release that the updater shows is newer than the program, as far as
-- both versions can be read; and no check or download is left marked as under way.
pub Reach-IsValid :
    (cfg : Config) (disk : Disk) (bundle : Bool) {u : Updater}
    → Reach (new cfg disk bundle) u
    → IsValid u
Reach-IsValid cfg disk bundle here = new-IsValid cfg disk bundle
Reach-IsValid cfg disk bundle (next r st) = step-IsValid st (Reach-IsValid cfg disk bundle r)

versions-path :
    (u : Updater) (info : ReleaseInfo) (latest current : Option Semver)
    → ((versions u info latest current).new_app_path ≡ u.new_app_path)
      × ((versions u info latest current).status.ready ≡ u.status.ready)
versions-path u info none current = (refl, refl)
versions-path u info (some v) none = (refl, refl)
versions-path u info (some v) (some w) =
    let (status, cfg, path) = save_cache-kept (record u {
      status = record u.status { latest = some info; update_available = newer_than v w };
    }) in
    (path, ap (λ t. t.ready) status)

-- Where a bundle was downloaded and is still there, a check that finds a release to offer leads to
-- no new download: the download reports success and changes nothing, and a restart installs the
-- bundle of before, of whichever release it is.
pub download-stale :
    (u : Updater) (arm : Bool) (rel : GithubRelease) (f : Fetching)
    → u.status.ready ≡ true
    → is_empty u.new_app_path ≡ false
    → ((check_now u arm (release rel)).status.update_available
        && has_asset (check_now u arm (release rel)).status.latest)
      ≡ true
    → let w = check_now u arm (release rel) in
      (download w true f ≡ (w, true)) × (restart w true ≡ some u.new_app_path)
unfolding check_now download restart
download-stale u arm rel f ready path offered =
    let start : Updater = record u { status = record u.status { checking = true; error = [] } } in
    let (same, still) =
      versions-path start (info_of u.cfg arm rel) (parse_semver rel.tag_name)
        (parse_semver u.cfg.current) in
    let w = check_now u arm (release rel) in
    let on : w.status.ready ≡ true = still ∙ ready in
    let full : is_empty w.new_app_path ≡ false = ap is_empty same ∙ path in
    (rw (offered, on, full) refl, rw (on, full, same) refl)
