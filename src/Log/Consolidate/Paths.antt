-- ===== src/Log/Consolidate/Paths.antt =====
-- emboss/_log_cache.py: the paths of spill files, as texts relative to the cache's directory.
use emboss.Prelude.{◌+◌, ◌-◌, String, Bool, ◌&&◌, leb, ltb, str_eq, if◌then◌else◌}
use Prim.Native.String.{len, slice, find, ◌++◌}
use text.Mathlib.Text.{starts_with}

unfoldable pub ends_with : String → String → Bool
ends_with s t = leb (len t) (len s) && str_eq (slice s (len s - len t) (len s)) t

unfoldable pub removesuffix : String → String → String
unfolding ends_with
removesuffix s t = if ends_with s t then slice s 0 (len s - len t) else s

-- `_is_shared_spill`
unfoldable pub is_shared_spill : String → String → Bool
is_shared_spill prefix rel = starts_with rel (prefix ++ "/spill/")

unfoldable pub pool_path : String → String → String
pool_path prefix digest = prefix ++ "/spill/" ++ digest ++ ".val"

abbrev after_slash : String → String
after_slash s = slice s (find s "/" + 1) (len s)

-- `rec.spill.split("/")[1] if "/" in rec.spill else ""`
unfoldable pub namespace_of : String → String
namespace_of rel =
    if ltb (find rel "/") (len rel)
    then slice (after_slash rel) 0 (find (after_slash rel) "/")
    else ""

abbrev pub with_suffix : String → String → String
with_suffix suffix name = name ++ suffix
