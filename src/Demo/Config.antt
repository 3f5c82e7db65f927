-- ===== src/Demo/Config.antt =====
-- `Config` of main.py and its `validate`. The numbers of the interval and rate settings are an argument, with
-- their order; the counts are integers.
use Prim.Native.Char.{code}
use semconv_graph.Base.{
  ℕ, String, Bool, true, false, not, ◌&&◌, ◌||◌, Option, ◌==◌, nat_eq, if◌then◌else◌, leb, Result,
  ◌>>◌, guard,
}

-- An integer; `negsuc n` is the number below 0 by `suc n`.
pub data ℤ : Type 0 where
  pos negsuc : ℕ → ℤ

-- `float`, as `validate` reads it.
pub record Floats : Type 1 where
  pub Float : Type 0
  pub leq : Float → Float → Bool
  pub zero : Float
  pub one : Float

module _ (F : Floats) where
  pub record Config : Type 0 where
    pub endpoint : String
    pub emit_interval_seconds : F.Float
    pub topology_change_interval_seconds : F.Float
    pub initial_edges : ℤ
    pub max_active_edges : ℤ
    pub requests_per_tick : ℤ
    pub error_rate : F.Float
    pub namespace : String
    pub instance_id : String
    pub random_seed : Option ℤ

-- `ValueError`, for each check.
pub data ConfigError : Type 0 where
  bad_endpoint bad_interval bad_edge_counts bad_requests bad_error_rate : ConfigError

-- `m <= n` and `m < n`
abbrev pub leb_int : ℤ → ℤ → Bool
leb_int (pos m) (pos n) = leb m n
leb_int (pos m) (negsuc n) = false
leb_int (negsuc m) (pos n) = true
leb_int (negsuc m) (negsuc n) = leb n m

abbrev pub ltb_int : ℤ → ℤ → Bool
ltb_int m n = not (leb_int n m)

-- `s.startswith(p)`
unfoldable pub starts_with : String → String → Bool
starts_with String.[] s = true
starts_with (String.◌∷◌ c p) String.[] = false
starts_with (String.◌∷◌ c p) (String.◌∷◌ d s) =
    let rest = starts_with p s in if code c == code d then rest else false

module _ (F : Floats) where
  -- `Config.validate`, for the number of edges that are available.
  unfoldable pub validate : ℕ → Config F → Result ConfigError (Unit {0})
  validate available c =
      guard (starts_with "http://" c.endpoint || starts_with "https://" c.endpoint) bad_endpoint
      >> (guard
            (not (
              F.leq c.emit_interval_seconds F.zero
              || F.leq c.topology_change_interval_seconds F.zero))
            bad_interval
          >> (guard
                (leb_int (pos 1) c.initial_edges
                  && leb_int c.initial_edges c.max_active_edges
                  && ltb_int c.max_active_edges (pos available))
                bad_edge_counts
              >> (guard (not (ltb_int c.requests_per_tick (pos 1))) bad_requests
                  >> guard (F.leq F.zero c.error_rate && F.leq c.error_rate F.one) bad_error_rate)))
