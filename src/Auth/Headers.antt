-- ===== src/Auth/Headers.antt =====
-- `authorization.partition(" ")` of principal_from_authorization.
use Prim.Native.Char.{code}
use Prim.Native.String.{String, [], ◌∷◌}
use event_driven_data_platfo.Base.{eqb, if◌then◌else◌}

-- The text before the first space and the text after it, which is empty without a space.
unfoldable pub partition_space : String → String × String
partition_space [] = ([], [])
partition_space (c ∷ s) =
    let (scheme, token) = partition_space s in
    if eqb (code c) 32 then ([], s) else (c ∷ scheme, token)
