-- ===== src/Plugin/Chain.antt =====
-- Data nodes in a row, and `g_node_insert_after` at their end.
use fast_wireshark.Base.{ℕ, suc, ◌+◌, ◌≡◌, refl, ap, ◌∙◌, Option, none, some, arith}
use fast_wireshark.Template.{FieldType, TNode, TNodes, node, pmap_exists}
use fast_wireshark.Template
use fast_wireshark.Dissect.Node.{DNode, DNodes, insert_after}
use fast_wireshark.Plugin.Fits.{EachFrom, NodeFits, Fits}

abbrev pub chain : DNodes → DNodes → DNodes
chain DNodes.nil es = es
chain (DNodes.cons d ds) es = DNodes.cons d (chain ds es)

abbrev pub only : DNode → DNodes
only d = DNodes.cons d DNodes.nil

abbrev pub next : Option ℕ → Option ℕ
next none = some 0
next (some i) = some (i + 1)

abbrev pub last_of : DNodes → Option ℕ
last_of DNodes.nil = none
last_of (DNodes.cons d ds) = next (last_of ds)

pub insert_after-next :
    (c : DNode) (cs : DNodes) (o : Option ℕ) (d : DNode)
    → insert_after (DNodes.cons c cs) (next (next o)) d ≡ DNodes.cons c (insert_after cs (next o) d)
unfolding insert_after
insert_after-next c cs none d = refl
insert_after-next c cs (some i) d = let step : i + 1 + 1 ≡ suc (i + 1) = omega arith in rw step refl

pub insert_after-last_of :
    (ds : DNodes) (d : DNode) → insert_after ds (last_of ds) d ≡ chain ds (only d)
unfolding insert_after
insert_after-last_of DNodes.nil d = refl
insert_after-last_of (DNodes.cons c DNodes.nil) d = refl
insert_after-last_of (DNodes.cons c (DNodes.cons b ds)) d =
    insert_after-next c (DNodes.cons b ds) (last_of ds) d
    ∙ ap (λ t. DNodes.cons c t) (insert_after-last_of (DNodes.cons b ds) d)

pub last_of-chain : (ds : DNodes) (d : DNode) → last_of (chain ds (only d)) ≡ next (last_of ds)
last_of-chain DNodes.nil d = refl
last_of-chain (DNodes.cons c ds) d = ap next (last_of-chain ds d)

pub chain_assoc : (a b c : DNodes) → chain (chain a b) c ≡ chain a (chain b c)
chain_assoc DNodes.nil b c = refl
chain_assoc (DNodes.cons d a) b c = ap (λ t. DNodes.cons d t) (chain_assoc a b c)

pub chain-nil : (a : DNodes) → chain a DNodes.nil ≡ a
chain-nil DNodes.nil = refl
chain-nil (DNodes.cons d a) = ap (λ t. DNodes.cons d t) (chain-nil a)

-- An element more, at the end.
pub EachFrom-chain :
    (t : TNode) (ds : DNodes) (d : DNode)
    → EachFrom (Fits (Template.cons t Template.nil)) ds
    → NodeFits t d
    → EachFrom (Fits (Template.cons t Template.nil)) (chain ds (only d))
unfolding Fits
EachFrom-chain t DNodes.nil d h g = ((g, tt), tt)
EachFrom-chain t (DNodes.cons c ds) d ((h, _), hs) g = ((h, tt), EachFrom-chain t ds d hs g)
