-- ===== src/Client/Laws.antt =====
-- What a second sending adds, and the order of the data portals: doRequest and GetDataPortals of pkg/client/hsclient.go.
use csi_plugin.Base.{
  String, ◌==◌, ◌≡◌, refl, ◌∙◌, Bool, false, List, [], ◌∷◌, ◌++◌, inl, inr, Bool-cases,
  if◌then◌else◌,
}
use csi_plugin.Client.{
  Http, Client, Response, PortalResponse, sent_again, login, transmit_again, ensure_login, or_login,
  is_unauthorized, continue, ◌>>=◌,
}
use csi_plugin.Client.Portals.{sort_portals}
use csi_plugin.Grpc.{Result, ok, err}
use mathlib.Core.List.{append_assoc, append-nil}

-- Whether the first answer asks for a login.
abbrev pub asks_for_login : Result Response → Bool
asks_for_login (ok r) = is_unauthorized r.status_code
asks_for_login (err e) = false

module _ (h : Http) (verb path body : String) where
  pub settled-exchanges :
      (r : Result Response) (c : Client)
      → (continue r (λ a. or_login h verb path body a) c).1.exchanges ≡ (
          if asks_for_login r then sent_again verb path body ∷ login ∷ c.exchanges else c.exchanges)
  unfolding or_login ensure_login transmit_again ◌>>=◌
  settled-exchanges (ok r) c = elim (Bool-cases (is_unauthorized r.status_code)) [
    | inl e ↦ rw e refl
    | inr e ↦ rw e refl
  ]
  settled-exchanges (err e) c = refl

-- The portals with the name, and those without, each in its order.
abbrev pub here : String → List PortalResponse → List PortalResponse
here node_id [] = []
here node_id (p ∷ portals) =
    if p.node_name == node_id then p ∷ here node_id portals else here node_id portals

abbrev pub elsewhere : String → List PortalResponse → List PortalResponse
elsewhere node_id [] = []
elsewhere node_id (p ∷ portals) =
    if p.node_name == node_id then elsewhere node_id portals else p ∷ elsewhere node_id portals

sort_from :
    (node_id : String) (l colocated others : List PortalResponse)
    → sort_portals node_id l colocated others
      ≡ (colocated ++ here node_id l) ++ (others ++ elsewhere node_id l)
unfolding sort_portals
sort_from node_id [] colocated others = simp append-nil
sort_from node_id (p ∷ l) colocated others = elim (Bool-cases (p.node_name == node_id)) [
  | inl e ↦ rw e (sort_from node_id l (colocated ++ p ∷ []) others ∙ simp append_assoc)
  | inr e ↦ rw e (sort_from node_id l colocated (others ++ p ∷ []) ∙ simp append_assoc)
]

-- GetDataPortals puts the portals of the node itself first, and keeps the order in both parts: it is the
-- portals with the node's name, followed by all the others.
sort_portals-here :
    (node_id : String) (l : List PortalResponse)
    → sort_portals node_id l [] [] ≡ here node_id l ++ elsewhere node_id l
sort_portals-here node_id l = sort_from node_id l [] []
