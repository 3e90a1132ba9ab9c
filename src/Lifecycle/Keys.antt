-- ===== src/Lifecycle/Keys.antt =====
-- The dict of the requested grants by controller.
use mathlib.Core.List.{Memᴰ}
use mathlib.Core.Path.{subst}
use consent_manager.Base.{
  String, true, false, some, List, [], ◌∷◌, ◌==◌, ◌≡◌, sym, inl, inr, arith, Bool-cases, eq_iff,
  eq_refl, eq_sym, ap,
}
use consent_manager.Models.Rows.{RequestedGrant}
use consent_manager.Models.Table
use consent_manager.Lifecycle.Approve.{put_grant, by_controller, requested_for}

put_grant-All :
    (P : RequestedGrant → Type 0) (g : RequestedGrant) (hs : List RequestedGrant)
    → P g
    → Table.All P hs
    → Table.All P (put_grant g hs)
unfolding put_grant
put_grant-All P g [] p h = (p, tt)
put_grant-All P g (h ∷ hs) p all = elim (Bool-cases (h.data_controller == g.data_controller)) [
  | inl e ↦ rw e (p, all.1)
  | inr d ↦ rw d (all.0, put_grant-All P g hs p all.1)
]

pub by_controller-All :
    (P : RequestedGrant → Type 0) (gs found : List RequestedGrant)
    → Table.All P gs
    → Table.All P found
    → Table.All P (by_controller gs found)
unfolding by_controller
by_controller-All P [] found h f = f
by_controller-All P (g ∷ gs) found h f =
    by_controller-All P gs (put_grant g found) h.1 (put_grant-All P g found h.0 f)

-- One grant for each controller.
abbrev pub IsDict : List RequestedGrant → Type 0
IsDict [] = Unit
IsDict (g ∷ gs) =
    Table.All (λ (r : RequestedGrant). (r.data_controller == g.data_controller) ≡ false) gs
    × IsDict gs

other_key : (c a b : String) → (a == b) ≡ true → (c == a) ≡ false → (c == b) ≡ false
other_key c a b e d = ground (arith, eq_iff a b, eq_iff c a, eq_iff c b)

other_keys :
    (a b : String) (gs : List RequestedGrant)
    → (a == b) ≡ true
    → Table.All (λ (r : RequestedGrant). (r.data_controller == a) ≡ false) gs
    → Table.All (λ (r : RequestedGrant). (r.data_controller == b) ≡ false) gs
other_keys a b [] e h = tt
other_keys a b (g ∷ gs) e h = (other_key g.data_controller a b e h.0, other_keys a b gs e h.1)

put_grant-IsDict :
    (g : RequestedGrant) (hs : List RequestedGrant) → IsDict hs → IsDict (put_grant g hs)
unfolding put_grant
put_grant-IsDict g [] d = (tt, tt)
put_grant-IsDict g (h ∷ hs) d = elim (Bool-cases (h.data_controller == g.data_controller)) [
  | inl e ↦ rw e (other_keys h.data_controller g.data_controller hs e d.0, d.1)
  | inr n ↦
      let apart : (g.data_controller == h.data_controller) ≡ false = ground (
        arith,
        eq_iff h.data_controller g.data_controller,
        eq_iff g.data_controller h.data_controller,
      ) in
      rw n (
        put_grant-All (λ (r : RequestedGrant). (r.data_controller == h.data_controller) ≡ false) g
            hs apart d.0,
        put_grant-IsDict g hs d.1,
      )
]

pub by_controller-IsDict :
    (gs found : List RequestedGrant) → IsDict found → IsDict (by_controller gs found)
unfolding by_controller
by_controller-IsDict [] found d = d
by_controller-IsDict (g ∷ gs) found d =
    by_controller-IsDict gs (put_grant g found) (put_grant-IsDict g found d)

pub All-at :
    (P : RequestedGrant → Type 0) (gs : List RequestedGrant) (r : RequestedGrant)
    → Table.All P gs
    → Memᴰ r gs
    → P r
All-at P [] r h m = elim m [ ]
All-at P (g ∷ gs) r h (Memᴰ.head e) = subst P (sym e) h.0
All-at P (g ∷ gs) r h (Memᴰ.tail m) = All-at P gs r h.1 m

pub IsDict-requested_for :
    (gs : List RequestedGrant) (r : RequestedGrant)
    → IsDict gs
    → Memᴰ r gs
    → requested_for r.data_controller gs ≡ some r
unfolding requested_for
IsDict-requested_for [] r d m = elim m [ ]
IsDict-requested_for (g ∷ gs) r d (Memᴰ.head e) =
    let own : (g.data_controller == r.data_controller) ≡ true =
      cc (eq_refl g.data_controller, ap (λ (x : RequestedGrant). x.data_controller) e) in
    rw own (cc e)
IsDict-requested_for (g ∷ gs) r d (Memᴰ.tail m) =
    let apart =
      All-at (λ (x : RequestedGrant). (x.data_controller == g.data_controller) ≡ false) gs r d.0
        m in
    let other : (g.data_controller == r.data_controller) ≡ false =
      cc (apart, eq_sym g.data_controller r.data_controller) in
    rw other (IsDict-requested_for gs r d.1 m)
