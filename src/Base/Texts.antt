-- ===== src/Base/Texts.antt =====
-- Texts as the sources read them: `str.strip()` of Python, and what it leaves of a blank text.
use Prim.Native.Char.{Char, code}
use Prim.Native.String.{String, [], ◌∷◌}
use mathlib.Core.Bool.{Bool, true, not, ◌&&◌, ◌||◌}
use mathlib.Core.List.{List}
use stock_recommendation_be.Base.Tests.{leb, ◌==◌}
use stock_recommendation_be.Base.Lists.{filter}

-- `str.isspace` of one character.
unfoldable pub is_space : Char → Bool
is_space c =
    (leb 9 (code c) && leb (code c) 13)
    || (leb 28 (code c) && leb (code c) 32)
    || code c == 133
    || code c == 160
    || code c == 5760
    || (leb 8192 (code c) && leb (code c) 8202)
    || code c == 8232
    || code c == 8233
    || code c == 8239
    || code c == 8287
    || code c == 12288

-- `not s.strip()`.
unfoldable pub is_blank : String → Bool
unfolding is_space
is_blank [] = true
is_blank (c ∷ s) = is_space c && is_blank s

-- `[t for t in texts if t.strip()]`.
unfoldable pub written : List String → List String
unfolding is_blank
written texts = filter (λ t. not (is_blank t)) texts
