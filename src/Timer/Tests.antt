-- ===== src/Timer/Tests.antt =====
-- A timer with three timeouts.
use tarm_io.Prelude.{refl, ℕ, Option, zero, suc, none, ◌≡◌, [], ◌∷◌, some}
use tarm_io.Timer.{init, start}
use tarm_io.Timer.Laws.{IsUvTimer, delays, delays-start}

abbrev uv_rearm : Option (ℕ × ℕ) → Option (ℕ × ℕ)
uv_rearm none = none
uv_rearm (some (t, zero)) = none
uv_rearm (some (t, suc r)) = some (suc r, suc r)

uv_rearm-IsUvTimer : IsUvTimer uv_rearm
uv_rearm-IsUvTimer = ((λ t. refl), (λ t r. refl))

delays-start_example :
    delays uv_rearm 5 (start init (100 ∷ 200 ∷ 300 ∷ []) 50 (some 1))
    ≡ (100, some 1) ∷ (200, some 1) ∷ (300, some 1) ∷ (50, some 1) ∷ (50, some 1) ∷ []
delays-start_example =
    delays-start uv_rearm uv_rearm-IsUvTimer 5 100 (200 ∷ 300 ∷ []) 50 (some 1) init
