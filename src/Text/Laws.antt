-- ===== src/Text/Laws.antt =====
-- Laws of the text functions.
use Prim.Native.String.{◌∷◌}
use fake_auth.Base.{Char, String, ◌≡◌, ◌≢◌, true, arith, eq_iff}
use fake_auth.Text.{contains, or_text}

-- A text that holds "id_token" holds "token".
pub contains-tail : (c : Char) (s t : String) → contains s t ≡ true → contains (c ∷ s) t ≡ true
unfolding contains
contains-tail c s t h = ground arith

pub or_text-ne : (s d : String) → d ≢ "" → or_text s d ≢ ""
unfolding or_text
or_text-ne s d h = ground (arith, eq_iff s "")

pub or_text_given : (s d : String) → s ≢ "" → or_text s d ≡ s
unfolding or_text
or_text_given s d h = ground (arith, eq_iff s "")
