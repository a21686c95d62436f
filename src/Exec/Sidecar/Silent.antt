-- ===== src/Exec/Sidecar/Silent.antt =====
-- A sidecar that accepts connections and never answers.
use vasal.Prelude.{none, ◌≡◌, FilePath}
use vasal.Codec
use vasal.Codec.{Bytes, encode}
use vasal.Host.{Env, Trace, never_answered}
use vasal.Host.Run
use vasal.Host.Run.{Run}

-- Connections to `path` are accepted and no request over them is answered.
pub record IsSilent {V : Type 0} (env : Env V) (path : FilePath) : Type 0 where
  pub accepts : (t : Trace V) → env.connect t path ≡ none
  pub silent : (t : Trace V) (bytes : Bytes) → env.exchange t path bytes ≡ never_answered
