-- ===== src/Lu/SendTargets/Lines.antt =====
-- The lines that SendTargets is to answer (src/istgt/istgt_lu.c: istgt_lu_sendtargets).
use istgt.Prelude.{
  ℕ, List, [], ◌∷◌, ◌++◌, ◌||◌, not, Option, none, some, if◌then◌else◌, ◌==◌, Name, any,
}
use istgt.Lu.Access.{LuMap, pg_visible}
use istgt.Lu.SendTargets.{
  Portal, PortalGroupList, Target, Istgt, Caller, shown_host, name_line, address_line, is_listed,
}

-- Lines, each closed by a NUL.
abbrev pub flat : List Name → List ℕ
flat [] = []
flat (line ∷ lines) = line ++ 0 ∷ flat lines

-- The lines that are due: the addresses of portals,
unfoldable pub portal_line : Caller → Portal → List Name
portal_line conn p = elim (shown_host conn p.host) [
  | none ↦ []
  | some host ↦ address_line host p ∷ []
]

unfoldable pub portal_lines : Caller → List Portal → List Name
portal_lines conn [] = []
portal_lines conn (p ∷ ps) = portal_line conn p ++ portal_lines conn ps

-- those of the portal groups with a tag,
unfoldable pub group_lines : Caller → (pg_tag : ℕ) → List PortalGroupList → List Name
group_lines conn pg_tag [] = []
group_lines conn pg_tag (g ∷ gs) =
    (if g.tag == pg_tag then portal_lines conn g.portals else []) ++ group_lines conn pg_tag gs

-- those of each tag of the maps, once, where the initiator sees it,
unfoldable pub map_lines :
    Istgt → Caller → (iiqn : Name) → Target → (seen : List ℕ) → List LuMap → List Name
map_lines istgt conn iiqn lu seen [] = []
map_lines istgt conn iiqn lu seen (m ∷ ms) =
    (if any (λ t. t == m.pg_tag) seen
        || not (pg_visible istgt.initiator_groups iiqn m.pg_tag lu.maps)
      then []
      else group_lines conn m.pg_tag istgt.portal_groups)
    ++ map_lines istgt conn iiqn lu (m.pg_tag ∷ seen) ms

-- and the name of each target that is listed, with its addresses.
unfoldable pub target_lines : Istgt → Caller → (iiqn tiqn : Name) → List (Option Target) → List Name
target_lines istgt conn iiqn tiqn [] = []
target_lines istgt conn iiqn tiqn (none ∷ lus) = target_lines istgt conn iiqn tiqn lus
target_lines istgt conn iiqn tiqn (some lu ∷ lus) =
    (if is_listed istgt conn iiqn tiqn lu
      then name_line lu.name ∷ map_lines istgt conn iiqn lu [] lu.maps
      else [])
    ++ target_lines istgt conn iiqn tiqn lus
