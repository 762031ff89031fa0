-- ===== src/Drain/Tests.antt =====
-- The middleware on concrete requests.
use cogitator.Base.{◌≡◌, refl}
use cogitator.Base.Texts.{codes, has_prefix}
use cogitator.Drain.{new, start, middleware, served, unavailable}

drained :
    (middleware new (codes "/api/chat") ≡ served)
    × (middleware (start new) (codes "/api/chat") ≡ unavailable)
    × (middleware (start new) (codes "/api/health") ≡ served)
    × (middleware (start new) (codes "/api/internal/status") ≡ served)
unfolding new start middleware has_prefix
drained = (refl, refl, refl, refl)
