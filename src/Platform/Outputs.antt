-- ===== src/Platform/Outputs.antt =====
-- doover/src/docker/platform.rs: what the setting of digital outputs tells its caller.
use doover_rs.Base.{ℕ, ◌≡◌, Bool, Option, List, length}
use doover_rs.Base.Int.{ℤ}
use doover_rs.Errors.{ok}
use doover_rs.Grpc.{replied, Header, check}
use doover_rs.Platform.Service.{PlatformService}

module _ (𝓟 : PlatformService) where
  -- Levels for the pins were sent, one for each, and were answered so without a failure.
  abbrev pub IsWritten : List ℤ → List Bool → Type 0
  IsWritten pins v =
      (given : List Bool) × (ch : ℕ) × (n : ℕ) × (header : Option Header) × (length given
        ≡ length pins)
      × (𝓟.set_do pins given ch n ≡ replied (record { header = header; body = v }))
      × (check header ≡ ok tt)
