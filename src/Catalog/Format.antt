-- ===== src/Catalog/Format.antt =====
-- The format that a consumer reads out of a dataset's distributions (internal/dsp/catalog.go), and a
-- reference for it.
use dataspace_in_a_box.Base.{
  String, ◌≡◌, List, [], ◌∷◌, ◌==◌, contains, eq_iff, Bool-cases, inl, inr, arith, if◌then◌else◌,
}
use dataspace_in_a_box.Catalog.{served_format}
use dataspace_in_a_box.Catalog.Remote.{
  Node, RemoteDataset, distributions, distribution_format, pick_format, format,
}

-- The formats that can be read, in their order.
unfoldable pub readable : List Node → List String
readable [] = []
readable (raw ∷ rest) =
    let f = distribution_format raw in let fs = readable rest in if f == "" then fs else f ∷ fs

unfoldable pub first_text : List String → String
first_text [] = ""
first_text (f ∷ fs) = f

-- The one that can be carried out, where it is among them; the first one otherwise.
unfoldable pub preferred : List String → String
preferred fs = if contains fs served_format then served_format else first_text fs

-- The loop with a format advertised so far.
unfoldable preferred_after : String → List String → String
unfolding preferred
preferred_after advertised fs =
    if contains fs served_format
    then served_format
    else if advertised == ""
    then first_text fs
    else advertised

pick_format_lem :
    (advertised : String) (nodes : List Node)
    → pick_format advertised nodes ≡ preferred_after advertised (readable nodes)
unfolding pick_format preferred_after readable first_text
pick_format_lem advertised [] = ground (arith, eq_iff advertised "")
pick_format_lem advertised (raw ∷ rest) = elim (Bool-cases (distribution_format raw == "")) [
  | inl e ↦ rw e (pick_format_lem advertised rest)
  | inr e ↦ ground (
    arith,
    eq_iff (distribution_format raw) served_format,
    pick_format_lem advertised rest,
    pick_format_lem (distribution_format raw) rest,
  )
]

-- Of a dataset's distributions the consumer takes the format that this connector can carry out if
-- any of them advertises it, the first that can be read if none does, and none if none can be read.
pub format_lem : (d : RemoteDataset) → format d ≡ preferred (readable (distributions d))
unfolding format preferred preferred_after
format_lem d = pick_format_lem "" (distributions d)
