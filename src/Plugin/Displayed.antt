-- ===== src/Plugin/Displayed.antt =====
-- packet-fast.c: every message of a packet is displayed, from the template file on.
use mathlib.Core.Option
use fast_wireshark.Base.{
  ℕ, zero, suc, ◌≡◌, refl, ap, Bool, List, [], ◌∷◌, ◌++◌, Option, none, some, Bool-cases, inl, inr,
  arith, ◌==◌, ◌||◌,
}
use fast_wireshark.Field.{Machine}
use fast_wireshark.Position.{FieldData, DissectPosition, basic_dissect_pmap}
use fast_wireshark.Template.{TNode, TNodes, node}
use fast_wireshark.Parser.Shape.{AllWellFormed}
use fast_wireshark.Parser.Marked.{WellShaped}
use fast_wireshark.Dissect.Node.{Store, DNode, DNodes, dnode, Walk}
use fast_wireshark.Dissect.Tree.{dissector_walk}
use fast_wireshark.Dissect.Message.{
  Message, children_of, walk_message, message_at, dissect_fast_bytes,
}
use fast_wireshark.Plugin.{
  PacketData, error_template, error_data, keep_message, message_round, packet_loop,
}
use fast_wireshark.Plugin.Display.{DisplayPreferences, display_message}
use fast_wireshark.Plugin.Fits.{Fits, Shown, display_fields-Shown}
use fast_wireshark.Plugin.Made.{walk_at}

abbrev pub data_below : DNode → DNodes
data_below (dnode fdata ds) = ds

abbrev MessageFits : Option TNode → DNode → Type 0
MessageFits none d = Unit {0}
MessageFits (some t) d = Fits (children_of t) (data_below d)

abbrev pub AllFit : List (TNode × DNode) → Type 0
AllFit [] = Unit {0}
AllFit ((t, d) ∷ rest) = Fits (children_of t) (data_below d) × AllFit rest

AllFit-append : (xs ys : List (TNode × DNode)) → AllFit xs → AllFit ys → AllFit (xs ++ ys)
AllFit-append [] ys h g = g
AllFit-append ((t, d) ∷ xs) ys (h, hs) g = (h, AllFit-append xs ys hs g)

module _ (m : Machine) (junk : FieldData) {S : Type 0} (st : Store S) where
  walk-Fits :
      (id : ℕ) (ts : TNodes) (w : Walk S)
      → AllWellFormed id ts
      → w.children ≡ DNodes.nil
      → w.last ≡ none
      → Fits ts (dissector_walk m junk st ts w).children
  unfolding dissector_walk
  walk-Fits id ts w ws h e =
      let (ds, (made, fits, ends)) = walk_at m junk st id ts ws w (rw (h, e) refl) in
      rw (made, h) fits

  module _ (templates : ℕ → Option TNode) (well : (id : ℕ) → WellShaped (templates id)) where
    walk_message-Fits :
        (tmpl : Option TNode) (start template_id : ℕ) (p : DissectPosition) (fdata : FieldData)
        (s : S)
        → WellShaped tmpl
        → let r = walk_message m junk st templates tmpl start template_id p fdata s in
          MessageFits r.template r.parent
    unfolding walk_message
    walk_message-Fits none start template_id p fdata s h = tt
    walk_message-Fits (some t) start template_id p fdata s (id, h) =
        walk-Fits id (children_of t) _ h refl refl

    message_at-Fits :
        (bits : Option (List ℕ)) (template_id : ℕ) (p : DissectPosition) (parent : FieldData)
        (s : S)
        → let r = message_at m junk st templates bits template_id p parent s in
          MessageFits r.template r.parent
    unfolding message_at
    message_at-Fits none template_id p parent s = tt
    message_at-Fits (some bits) template_id p parent s = walk_message-Fits _ _ _ _ _ s (well _)

    module _ (fresh_tid : ℕ) where
      error-Fits :
          (id : ℕ) → Fits (children_of (error_template fresh_tid id)) (data_below (error_data junk))
      unfolding error_template error_data Fits
      error-Fits id = (tt, tt)

      keep_message-AllFit :
          (trees : List (TNode × DNode)) (fault no_pmap : Bool) (r : Message S)
          (tmpl : Option TNode)
          → MessageFits tmpl r.parent
          → AllFit trees
          → AllFit (keep_message m junk fresh_tid st templates trees fault no_pmap r tmpl).trees
      keep_message-AllFit trees fault no_pmap r none h hs =
          AllFit-append trees _ hs (error-Fits _, tt)
      keep_message-AllFit trees fault no_pmap r (some t) h hs = AllFit-append trees _ hs (h, tt)

      round-AllFit :
          (s : PacketData S)
          → AllFit s.trees
          → AllFit (message_round m junk fresh_tid st templates s).trees
      unfolding message_round dissect_fast_bytes
      round-AllFit s h =
          keep_message-AllFit s.trees s.fault _
            (dissect_fast_bytes m junk st templates s.template_id s.position junk s.store) _
            (message_at-Fits (basic_dissect_pmap m s.position).pmap s.template_id
              (basic_dissect_pmap m s.position) junk s.store)
            h

      ends : (s s' : PacketData S) → some s ≡ some s' → AllFit s.trees → AllFit s'.trees
      ends s s' e h = let trees : s.trees ≡ s'.trees = cc (e) in rw⁻¹ trees h

      pub packet_loop-AllFit :
          (fuel : ℕ) (s s' : PacketData S)
          → AllFit s.trees
          → packet_loop m junk fresh_tid st templates fuel s ≡ some s'
          → AllFit s'.trees
      unfolding packet_loop
      packet_loop-AllFit zero s s' h e = elim (Bool-cases (s.fault || s.position.nbytes == 0)) [
        | inl over ↦ ends s s' (ground (arith, e, over)) h
        | inr more ↦ absurd (ground (arith, e, more))
      ]
      packet_loop-AllFit (suc fuel) s s' h e =
          elim (Bool-cases (s.fault || s.position.nbytes == 0)) [
            | inl over ↦ ends s s' (ground (arith, e, over)) h
            | inr more ↦
                packet_loop-AllFit fuel (message_round m junk fresh_tid st templates s) s'
                  (round-AllFit s h) (ground (arith, e, more))
          ]

module _ (m : Machine) (prefs : DisplayPreferences) where
  -- Every message has rows.
  abbrev pub AllShown : List (TNode × DNode) → Type 0
  AllShown [] = Unit {0}
  AllShown ((t, d) ∷ rest) = Shown (display_message m prefs t d) × AllShown rest

  display_message-Shown :
      (t : TNode) (d : DNode)
      → Fits (children_of t) (data_below d)
      → Shown (display_message m prefs t d)
  unfolding display_message
  display_message-Shown (node ftype ts) (dnode fdata ds) h =
      let (rows, e) = display_fields-Shown m prefs ts ds h in (_, ap (Option.map _) e)

  pub AllFit-AllShown : (trees : List (TNode × DNode)) → AllFit trees → AllShown trees
  AllFit-AllShown [] h = tt
  AllFit-AllShown ((t, d) ∷ trees) (h, hs) = (display_message-Shown t d h, AllFit-AllShown trees hs)
