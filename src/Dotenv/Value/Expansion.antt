-- ===== src/Dotenv/Value/Expansion.antt =====
-- `containsExpansion` against one pass over the text that keeps the parity of the backslashes.
use acme_mux.Prelude.{◌%◌, Bool, false, not, ◌&&◌, ◌||◌, ◌≡◌, refl, [], ◌∷◌, arith, ◌==◌}
use acme_mux.Prelude.Bytes.{Bytes}
use acme_mux.Dotenv.Value.{backslashes, expansion_after, contains_expansion}

-- Whether a '$' stands with no backslash that escapes it; the flag says that the bytes just before
-- are an odd run of backslashes.
pub expands : Bool → Bytes → Bool
expands escaped [] = false
expands escaped (c ∷ rest) = (c == b'$' && not escaped) || expands (c == b'\\' && not escaped) rest

expansion_after-expands :
    (before rest : Bytes) → expansion_after before rest ≡ expands (backslashes before % 2 == 1) rest
unfolding expansion_after expands backslashes
expansion_after-expands before [] = refl
expansion_after-expands before (c ∷ rest) =
    ground (arith, expansion_after-expands (c ∷ before) rest)

-- The backward count of backslashes decides the same as one forward pass that keeps their parity.
pub contains_expansion-expands : (value : Bytes) → contains_expansion value ≡ expands false value
unfolding contains_expansion backslashes
contains_expansion-expands value = expansion_after-expands [] value
