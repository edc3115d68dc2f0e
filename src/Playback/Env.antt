-- ===== src/Playback/Env.antt =====
-- What a request of internal/playback reads and does not change: the time of its transaction, the
-- tracks table, who sends it, and the code that is not the repository's or not deterministic.
use sound_dock.Base.{ℕ, Option, String}
use sound_dock.Playback.Session.{Catalog, Requester}

pub record Env : Type 0 where
  pub now : ℕ
  pub catalog : Catalog
  pub who : Requester
  -- `uuid.Parse`.
  pub parse : String → Option ℕ
  -- `rand.Intn`.
  pub draw : ℕ → ℕ
