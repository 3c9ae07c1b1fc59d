-- ===== src/Logging/Level.antt =====
-- The level of the library's logger (src/networking/LoggerManager.h).
use pulse_net.Base.{
  ℕ, ◌≤◌, ◌≡◌, ◌≢◌, ◌↔◌, refl, inl, inr, Option, none, some, [], ◌∷◌, ◌++◌, leb, arith, Bool-cases,
}
use pulse_net.Base.Bytes.{Bytes}
use pulse_net.Logging.{
  Severity, to_int, color, write, set_level, is_enabled, LoggerInterface, LoggerManager, get_logger,
  set_manager_level,
}

set_level_lem :
    (level : Severity) (o : Option LoggerInterface) (d : LoggerInterface)
    → get_logger (set_manager_level level (record { logger = o; default_logger = d }))
      ≡ set_level level (get_logger (record { logger = o; default_logger = d }))
unfolding get_logger set_manager_level
set_level_lem level none d = refl
set_level_lem level (some l) d = refl

set_manager_level-get_logger :
    (level : Severity) (m : LoggerManager)
    → get_logger (set_manager_level level m) ≡ set_level level (get_logger m)
set_manager_level-get_logger level m = set_level_lem level m.logger m.default_logger

cons-not-nil : (w : Bytes) (c : ℕ) (x : Bytes) → w ++ c ∷ x ≢ []
cons-not-nil [] c x e = absurd cc
cons-not-nil (y ∷ w) c x e = absurd cc

write-level :
    (level severity : Severity) (message : Bytes) (l : LoggerInterface)
    → (write severity message (set_level level l) ≢ []) ↔ (to_int level ≤ to_int severity)
unfolding write set_level is_enabled
write-level level severity message l = elim (Bool-cases (leb (to_int level) (to_int severity))) [
  | inl e ↦ rw e (λ h. ground arith, λ h. cons-not-nil (color severity) b'[' _)
  | inr e ↦ rw e (λ h. absurd (h refl), λ h. absurd (ground arith))
]

-- Once `LoggerManager::setLevel` has set a level, the logger that `get_logger` returns, be it the
-- default one or another, writes a message exactly when its severity is the level or above it.
pub set_manager_level-write :
    (level severity : Severity) (message : Bytes) (m : LoggerManager)
    → (write severity message (get_logger (set_manager_level level m)) ≢ [])
      ↔ (to_int level ≤ to_int severity)
set_manager_level-write level severity message m =
    rw (set_manager_level-get_logger level m) (write-level level severity message (get_logger m))
