-- ===== src/Cluster/Scenario/Tracked.antt =====
-- The clients and nodes that the history shows to have been made, against the variables of
-- `cluster_scenarios`.
use wu_kong_easy_sdk_csharp.Common.{
  ℕ, List, [], ◌∷◌, ◌++◌, map, map-append, ◌≡◌, refl, sym, ap, ◌∙◌,
}
use wu_kong_easy_sdk_csharp.Python.Result.{Result, ok, err}
use wu_kong_easy_sdk_csharp.Python.Json.{Json}
use wu_kong_easy_sdk_csharp.Python.Coroutine.{Coroutine, History, followed_by}
use wu_kong_easy_sdk_csharp.Python.Coroutine.Script.{give, resume, ◌>>=◌, ◌>>◌, call, assign}
use wu_kong_easy_sdk_csharp.Python.Coroutine.Ensures.{Ensures}
use wu_kong_easy_sdk_csharp.Python.Coroutine.Leads.{After, Keeps}
use wu_kong_easy_sdk_csharp.Python.Coroutine.Asks.{
  made, made-append, made_same, Asks, Keeps-call_if,
}
use wu_kong_easy_sdk_csharp.Cluster.Scenario.{Call, Answer, Local}
use wu_kong_easy_sdk_csharp.Cluster.Scenario.Calls.{make_node, spawn}
use wu_kong_easy_sdk_csharp.Cluster.Scenario.Clients.{Identity, client_of, open_client}
use wu_kong_easy_sdk_csharp.Cluster.Scenario.Body.{add_node}

abbrev pub new_clients : (c : Call) → Answer c → List ℕ
new_clients (Call.spawn language uid endpoint) (ok handle) = handle ∷ []
new_clients c r = []

abbrev pub new_nodes : (c : Call) → Answer c → List ℕ
new_nodes (Call.make_node node) (ok u) = node ∷ []
new_nodes c r = []

abbrev pub Neither : (c : Call) → Answer c → Type 0
Neither c r = (new_clients c r ≡ []) × (new_nodes c r ≡ [])

abbrev pub Quiet : {A : Type 0} → Coroutine Answer A → Type 0
Quiet t = Asks Neither t

-- The lists are those of the clients and nodes that were made, in order.
pub record Tracked (h : History Answer) (s : Local) : Type 0 where
  pub clients : map (λ c. c.handle) s.actors ≡ made new_clients h
  pub nodes : s.nodes ≡ made new_nodes h

pub Tracked-quiet :
    (h : History Answer) (s : Local) (c : Call) (r : Answer c)
    → Neither c r
    → Tracked h s
    → Tracked (h ++ ((c, r) ∷ [])) s
Tracked-quiet h s c r e t = record {
  clients = t.clients ∙ sym (made_same new_clients h c r e.0);
  nodes = t.nodes ∙ sym (made_same new_nodes h c r e.1);
}

pub Keeps-call : {A : Type 0} (t : Coroutine Answer (Result A)) → Quiet t → Keeps (Tracked) (call t)
Keeps-call t q = Keeps-call_if Neither (Tracked) Tracked-quiet t q

pub Keeps-assign :
    (f : Local → Local)
    → ((s : Local) → ((f s).actors ≡ s.actors) × ((f s).nodes ≡ s.nodes))
    → Keeps (Tracked) (assign f)
unfolding assign Ensures
Keeps-assign f same = record {
  at = λ h s t. record {
    clients = ap (map (λ c. c.handle)) (same s).0 ∙ t.clients;
    nodes = (same s).1 ∙ t.nodes;
  };
}

spawned_Ensures :
    (who : Identity) (endpoint : Json) (h : History Answer) (s : Local)
    → Tracked h s
    → (r : Result ℕ)
    → Ensures
        (After (Tracked) (Tracked))
        (h ++ ((Call.spawn who.language who.uid endpoint, r) ∷ []))
        (resume
          (λ handle.
            assign (λ s. record s { actors = s.actors ++ (client_of who handle ∷ []) })
            >> give (client_of who handle))
          (r, s))
unfolding ◌>>=◌ assign give followed_by Ensures
spawned_Ensures who endpoint h s t (ok handle) = record {
  clients =
      map-append (λ c. c.handle) s.actors (client_of who handle ∷ [])
      ∙ ap (λ cs. cs ++ (handle ∷ [])) t.clients
      ∙ sym (made-append new_clients h (Call.spawn who.language who.uid endpoint) (ok handle));
  nodes = t.nodes ∙ sym (made_same new_nodes h _ (ok handle) refl);
}
spawned_Ensures who endpoint h s t (err e) = Tracked-quiet h s _ (err e) (refl, refl) t

pub Keeps-open_client :
    (who : Identity) (endpoint : Json) → Keeps (Tracked) (open_client who endpoint)
unfolding open_client spawn ◌>>=◌ call followed_by Ensures
Keeps-open_client who endpoint = record { at = λ h s t r. spawned_Ensures who endpoint h s t r }

added_Ensures :
    (node : ℕ) (h : History Answer) (s : Local)
    → Tracked h s
    → (r : Result (Unit {0}))
    → Ensures
        (After (Tracked) (Tracked))
        (h ++ ((Call.make_node node, r) ∷ []))
        (resume (λ nothing. assign (λ s. record s { nodes = s.nodes ++ (node ∷ []) })) (r, s))
unfolding assign followed_by Ensures
added_Ensures node h s t (ok u) = record {
  clients = t.clients ∙ sym (made_same new_clients h _ (ok u) refl);
  nodes =
      ap (λ ns. ns ++ (node ∷ [])) t.nodes
      ∙ sym (made-append new_nodes h (Call.make_node node) (ok u));
}
added_Ensures node h s t (err e) = Tracked-quiet h s _ (err e) (refl, refl) t

pub Keeps-add_node : (node : ℕ) → Keeps (Tracked) (add_node node)
unfolding add_node make_node ◌>>=◌ call followed_by Ensures
Keeps-add_node node = record { at = λ h s t r. added_Ensures node h s t r }
