-- ===== src/Cluster/Scenario/Closed/Owned.antt =====
-- What the `finally` of `cluster_scenarios` asks for, step by step.
use wu_kong_easy_sdk_csharp.Common.{
  ℕ, String, false, List, [], ◌∷◌, ◌++◌, map, map-append, append_assoc, append-nil, ◌≡◌, refl, sym,
  ap, ◌∙◌,
}
use wu_kong_easy_sdk_csharp.Python.Result.{Result}
use wu_kong_easy_sdk_csharp.Python.Coroutine.{Coroutine, History, followed_by}
use wu_kong_easy_sdk_csharp.Python.Coroutine.Script.{
  Script, assign, look_up, call, gathered, each, ◌>>=◌, ◌>>◌,
}
use wu_kong_easy_sdk_csharp.Python.Coroutine.Ensures.{Ensures}
use wu_kong_easy_sdk_csharp.Python.Coroutine.Leads.{
  Assertion, After, Leads, Leads-bind, Leads-weaken,
}
use wu_kong_easy_sdk_csharp.Python.Coroutine.Safe.{safe_rules}
use wu_kong_easy_sdk_csharp.Python.Coroutine.Asks.{made, made_same, Returns, Leads-call_returns}
use wu_kong_easy_sdk_csharp.Cluster.Scenario.{Call, Answer, Client, Local}
use wu_kong_easy_sdk_csharp.Cluster.Scenario.Calls.{
  close_client, stop_node, close_log, count, has_exited, is_running, random_token,
}
use wu_kong_easy_sdk_csharp.Cluster.Scenario.Body.{gather_settled}
use wu_kong_easy_sdk_csharp.Cluster.Scenario.Run.{
  count_kind, count_events, check_stopped, close_owned, close_cluster,
}
use wu_kong_easy_sdk_csharp.Cluster.Scenario.Tracked.{
  new_clients, new_nodes, Neither, Quiet, Tracked, Tracked-quiet, Keeps-assign,
}
use wu_kong_easy_sdk_csharp.Cluster.Scenario.Quiet.{Quiet-count, Quiet-has_exited, Quiet-is_running}
use wu_kong_easy_sdk_csharp.Cluster.Scenario.Closed.{
  asked, closing_calls, Closed, Cancelled, Cut, gather_settled-Closes, Closing, Closing-eq,
  close_client-Closes, stop_node-Closes, close_log-Closes, each-Closes,
}
use mathlib.Core.Path.{subst}

-- The lists agree with the history, and the list of clients is the one that was read.
record Known (cs : List Client) (h : History Answer) (s : Local) : Type 0 where
  tracked : Tracked h s
  actors_are : s.actors ≡ cs

module _ {cs : List Client} {E : Assertion Answer Local} where
  Known-call :
      {A : Type 0} (t : Coroutine Answer (Result A))
      → Quiet t
      → Returns t
      → Leads (Known cs) (call t) (Known cs) E
  Known-call t q n =
      Leads-call_returns Neither (Known cs) E
        (λ h s c r e k. record {
          tracked = Tracked-quiet h s c r e k.tracked;
          actors_are = k.actors_are;
        })
        t q n

  Known-assign :
      (f : Local → Local)
      → ((s : Local) → ((f s).actors ≡ s.actors) × ((f s).nodes ≡ s.nodes))
      → Leads (Known cs) (assign f) (Known cs) E
  unfolding assign Ensures
  Known-assign f same = record {
    at = λ h s k. record {
      tracked = (Keeps-assign f same).at h s k.tracked;
      actors_are = (same s).0 ∙ k.actors_are;
    };
  }

Returns-count : (client : ℕ) (kind : String) → Returns (count client kind)
unfolding count Returns
Returns-count client kind = λ r. tt

Returns-has_exited : (client : ℕ) → Returns (has_exited client)
unfolding has_exited Returns
Returns-has_exited client = λ r. tt

Returns-is_running : (node : ℕ) → Returns (is_running node)
unfolding is_running Returns
Returns-is_running node = λ r. tt

pub Returns-random_token : Returns random_token
unfolding random_token Returns
Returns-random_token = λ r. tt

module _ {cs : List Client} {E : Assertion Answer Local} where
  Known-count_events : (c : Client) → Leads (Known cs) (count_events c) (Known cs) E
  unfolding count_events count_kind
  Known-count_events c = search (safe_rules, Known-call, Quiet-count, Returns-count) depth 12

module _ {E : Assertion Answer Local} where
  Closed-call :
      {A : Type 0} (t : Coroutine Answer (Result A))
      → Quiet t
      → Returns t
      → Leads Closed (call t) Closed E
  Closed-call t q n =
      Leads-call_returns Neither Closed E
        (λ h s c r e k. record {
          before = k.before;
          later = k.later ++ (c ∷ []);
          calls =
              map-append (λ e. e.0) h ((c, r) ∷ [])
              ∙ ap (λ xs. xs ++ (c ∷ [])) k.calls
              ∙ simp (append_assoc, made_same new_clients h c r e.0, made_same new_nodes h c r e.1);
        })
        t q n

  Closed-assign : (f : Local → Local) → Leads Closed (assign f) Closed E
  unfolding assign Ensures
  Closed-assign f = record {
    at = λ h s k. record { before = k.before; later = k.later; calls = k.calls };
  }

-- What is read while the variables are those at the beginning.
look_up-Closing :
    {A B : Type 0} (h0 : History Answer) (s0 : Local) (R E : Assertion Answer Local)
    (closing : List Call) (f : Local → A) (rest : A → Script Answer Local B)
    → Leads (Closing h0 s0 closing) (rest (f s0)) R E
    → Leads (Closing h0 s0 closing) (look_up f >>= rest) R E
unfolding look_up ◌>>=◌ followed_by
look_up-Closing h0 s0 R E closing f rest l = record {
  at = λ h s k. subst (λ v. Ensures (After R E) h (rest (f v) s)) (sym k.same) (l.at h s k);
}

of_handles :
    (cs : List Client)
    → map (λ c. Call.close_client c.handle) cs ≡ map Call.close_client (map (λ c. c.handle) cs)
of_handles [] = refl
of_handles (c ∷ cs) = ap (λ xs. Call.close_client c.handle ∷ xs) (of_handles cs)

-- What the `finally` is to ask for, by its variables and by the history.
wanted :
    (h0 h : History Answer) (s0 : Local) (cs : List Client)
    → Known cs h0 s0
    → made new_clients h ≡ made new_clients h0
    → made new_nodes h ≡ made new_nodes h0
    → closing_calls (map (λ c. c.handle) cs) s0.nodes
      ≡ closing_calls (made new_clients h) (made new_nodes h)
wanted h0 h s0 cs known c n =
    ap (λ xs. closing_calls xs s0.nodes)
      (ap (map (λ c. c.handle)) (sym known.actors_are) ∙ known.tracked.clients ∙ sym c)
    ∙ ap (closing_calls (made new_clients h)) (known.tracked.nodes ∙ sym n)

-- When all of it has been asked for, everything is closed.
Closing-Closed :
    (h0 : History Answer) (s0 : Local) (cs : List Client)
    → Known cs h0 s0
    → (h : History Answer) (s : Local)
    → Closing h0 s0 (closing_calls (map (λ c. c.handle) cs) s0.nodes) h s
    → Closed h s
Closing-Closed h0 s0 cs known h s k = record {
  before = asked h0;
  later = [];
  calls =
      k.calls
      ∙ ap (λ xs. asked h0 ++ xs)
          (wanted h0 h s0 cs known k.clients k.nodes
            ∙ sym (append-nil (closing_calls (made new_clients h) (made new_nodes h))));
}

Cut-Cancelled :
    (h0 : History Answer) (s0 : Local) (cs : List Client)
    → Known cs h0 s0
    → (h : History Answer) (s : Local)
    → Cut (closing_calls (map (λ c. c.handle) cs) s0.nodes) h0 h s
    → Cancelled h
Cut-Cancelled h0 s0 cs known h s k = record {
  before = asked h0;
  closed = k.closed;
  left_out = k.left_out;
  calls = k.calls;
  cut = sym (wanted h0 h s0 cs known k.clients k.nodes) ∙ k.cut;
  earlier = k.earlier;
  error = k.error;
  raised = k.raised;
}

check_stopped-Closed :
    {E : Assertion Answer Local} (cs : List Client) (ns : List ℕ)
    → Leads Closed (check_stopped cs ns) Closed E
unfolding check_stopped
check_stopped-Closed cs ns =
    search
      (
        safe_rules, Closed-call, Closed-assign, Quiet-has_exited, Quiet-is_running,
        Returns-has_exited, Returns-is_running,
      )
      depth 14

module _ (h0 : History Answer) (s0 : Local) (cs : List Client) where
  abbrev all_calls : List Call
  all_calls = closing_calls (map (λ c. c.handle) cs) s0.nodes

  close_clients-Closes :
      Leads
        (Closing h0 s0 [])
        (gather_settled (map (λ c. close_client c.handle) cs))
        (Closing h0 s0
          (Call.wait_tasks ∷ (map (λ c. Call.close_client c.handle) cs ++ (Call.wait_tasks ∷ []))))
        (Cut all_calls h0)
  close_clients-Closes =
      gather_settled-Closes h0 s0 all_calls (λ c. close_client c.handle)
        (λ c. Call.close_client c.handle)
        (λ c. close_client-Closes h0 s0 (Cut all_calls h0) c.handle) cs []
        (Call.wait_tasks
          ∷ (map (λ n. Call.stop_node n false) s0.nodes
              ++ (Call.wait_tasks ∷ map Call.close_log s0.nodes)))
        (rw (of_handles cs) refl)

  -- What the `finally` has asked for when the clients are closed, and when the nodes are stopped.
  abbrev clients_closed : List Call
  clients_closed =
      Call.wait_tasks ∷ (map (λ c. Call.close_client c.handle) cs ++ (Call.wait_tasks ∷ []))

  abbrev nodes_stopped : List Call
  nodes_stopped =
      clients_closed
      ++ (Call.wait_tasks ∷ (map (λ n. Call.stop_node n false) s0.nodes ++ (Call.wait_tasks ∷ [])))

  stop_nodes-Closes :
      Leads
        (Closing h0 s0 clients_closed)
        (gather_settled (map (λ n. stop_node n false) s0.nodes))
        (Closing h0 s0 nodes_stopped)
        (Cut all_calls h0)
  stop_nodes-Closes =
      gather_settled-Closes h0 s0 all_calls (λ n. stop_node n false) (λ n. Call.stop_node n false)
        (stop_node-Closes h0 s0 (Cut all_calls h0)) s0.nodes clients_closed
        (map Call.close_log s0.nodes) (rw (of_handles cs) (simp append_assoc))

  close_logs-Closes :
      Leads
        (Closing h0 s0 nodes_stopped)
        (each (λ n. call (close_log n)) s0.nodes)
        (Closing h0 s0 all_calls)
        (Cut all_calls h0)
  close_logs-Closes =
      Leads-weaken _ (Closing-eq h0 s0 (Cut all_calls h0) (rw (of_handles cs) (simp append_assoc)))
        (λ h s t. t)
        (each-Closes h0 s0 (Cut all_calls h0) (λ n. call (close_log n)) Call.close_log
          (close_log-Closes h0 s0 (Cut all_calls h0)) s0.nodes nodes_stopped)

close_owned-Closed :
    (cs : List Client) → Leads (Known cs) (close_owned cs) Closed (λ h s. Cancelled h)
unfolding close_owned
close_owned-Closed cs = record {
  at = λ h s known.
      (Leads-bind _ _
          (Leads-weaken _ (λ h' s' k. k) (Cut-Cancelled h s cs known) (close_clients-Closes h s cs))
          (λ closes.
            look_up-Closing h s Closed _ _ (λ s. s.nodes) _
              (Leads-bind _ _
                (Leads-weaken _ (λ h' s' k. k) (Cut-Cancelled h s cs known)
                  (stop_nodes-Closes h s cs))
                (λ stops.
                  Leads-bind _ _
                    (Leads-weaken _ (Closing-Closed h s cs known) (Cut-Cancelled h s cs known)
                      (close_logs-Closes h s cs))
                    (λ logs. check_stopped-Closed cs s.nodes))))).at
        h s
        (record { same = refl; calls = sym (append-nil (asked h)); clients = refl; nodes = refl });
}

after_read :
    (cs : List Client)
    → Leads
        (Known cs)
        (gathered count_events cs >>= (λ counts.
          assign (λ s. record s { report = record s.report { actors = counts } })
          >> close_owned cs))
        Closed
        (λ h s. Cancelled h)
after_read cs =
    Leads-bind _ _ (search (safe_rules, Known-count_events))
      (λ counts. Leads-bind _ _ (Known-assign _ (λ s. (refl, refl))) (λ u. close_owned-Closed cs))

pub close_cluster-Closed : Leads Tracked close_cluster Closed (λ h s. Cancelled h)
unfolding close_cluster look_up ◌>>=◌ followed_by
close_cluster-Closed = record {
  at = λ h s t. (after_read s.actors).at h s (record { tracked = t; actors_are = refl });
}
