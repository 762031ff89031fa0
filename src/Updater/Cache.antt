-- ===== src/Updater/Cache.antt =====
-- The cache on disk carries the offer over a restart.
use mathlib.Core.Path.{sym}
use cogitator.Base.{◌≡◌, refl, Bool, false, some}
use cogitator.Base.Texts.{Bytes, is_empty}
use cogitator.Updater.{Config, Updater, revalidated, load_cache, save_cache, cache_of, new}
use cogitator.Updater.Available.{IsValid}

-- Where the cache can be marshalled, the write leaves it at the cache path, and what was written
-- decodes to it, a program that starts with the same cache path shows the release that was shown
-- before; it offers it exactly if it is newer than the program that starts, and so as before where
-- that is the same version.
pub new-save_cache :
    (u : Updater) (cfg : Config) (bundle : Bool) (content : Bytes)
    → IsValid u
    → is_empty u.cfg.cache_path ≡ false
    → cfg.cache_path ≡ u.cfg.cache_path
    → u.disk.marshal (cache_of u) ≡ some content
    → u.disk.write u.disk.files u.cfg.cache_path content u.cfg.cache_path ≡ some content
    → u.disk.unmarshal content ≡ some (cache_of u)
    → let v = new cfg (save_cache u).disk bundle in
      (v.status.latest ≡ u.status.latest)
      × (v.status.update_available ≡ revalidated cfg.current u.status.latest)
      × (new
          (record cfg { current = u.cfg.current })
          (save_cache u).disk
          bundle).status.update_available
        ≡ u.status.update_available
unfolding new save_cache load_cache
new-save_cache u cfg bundle content valid path same encoded written read =
    rw (same, path, encoded, written, read) (refl, refl, sym valid.offer)
