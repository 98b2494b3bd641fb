-- ===== src/Cached/Codec/Calls.antt =====
-- emboss/_cached.py: the codec in the wrapper, as the decorator puts it there.
use emboss.Prelude.{◌≡◌, String, Bool, true, Option, some, List, if◌then◌else◌}
use emboss.Cached.{Cache, Wrapped, returned, call}
use emboss.Cached.Anno.{Anno, absent, wants_codec}
use emboss.Cached.Backend.{IsCache}
use emboss.Cached.Codec.{Value, Fields, Classes, encode, decode}
use emboss.Cached.Codec.Fits.{fits, Rebuilds}
use emboss.Cached.Codec.RoundTrip.{decode-encode}
use emboss.Cached.Stable.{call-call}

-- The annotation that the values of a function are stored through.
unfoldable pub codec_anno : Anno → Anno
codec_anno return_anno = if wants_codec return_anno 0 then return_anno else absent

-- The function under the decorator; what it returns is a `Value`, and so is what is stored.
unfoldable pub coded : {W : Type 0} → Classes → Anno → Wrapped W Value Value → Wrapped W Value Value
coded classes return_anno f = record f {
  encode = λ result. encode classes result (codec_anno return_anno);
  decode = λ raw. decode classes raw (codec_anno return_anno);
}

module _ {W : Type 0} (classes : Classes) (genuine : String → Fields → Bool)
    (rebuilds : Rebuilds classes genuine) (cache : Cache W Value) (f : Wrapped W Value Value)
    (view : W → String → Option Value) (laws : IsCache cache view) (anno : Anno) where
  -- Over a cache with the laws of `IsCache`, with classes that make their values again and a
  -- function whose results fit the annotation: if a call of the function under the codec
  -- returned a value, then the next call with the same keys returns that value too, whatever
  -- the body of the function has become.
  pub call-coded :
      (key : String) (accept_keys : List String) (w : W) (value : Value)
      (body : W → W × Option Value)
      → ((u : W) (r : Value)
          → (f.func u).1 ≡ some r
          → fits classes genuine r (codec_anno anno) ≡ true)
      → (call cache (coded classes anno f) key accept_keys w).1 ≡ returned value
      → (call cache
          (record (coded classes anno f) { func = body })
          key
          accept_keys
          (call cache (coded classes anno f) key accept_keys w).0).1
        ≡ returned value
  unfolding coded
  call-coded key accept_keys w value body fit =
      call-call cache (coded classes anno f) view laws
        (λ u r ran. decode-encode classes genuine rebuilds r (codec_anno anno) (fit u r ran)) key
        accept_keys w value body
