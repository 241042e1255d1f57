-- ===== src/Cluster/Scenario/Closed.antt =====
-- The calls by which the `finally` of `cluster_scenarios` closes what was made.
pub mod Owned
pub mod Outcome
use wu_kong_easy_sdk_csharp.Common.{
  ℕ, String, Bool, true, false, not, all, List, [], ◌∷◌, ◌++◌, map, map-append, append_assoc,
  append-nil, ◌≡◌, refl, sym, ap, ◌∙◌,
}
use wu_kong_easy_sdk_csharp.Python.Result.{Exc, Result, ok, err}
use wu_kong_easy_sdk_csharp.Python.Text.{Unicode}
use wu_kong_easy_sdk_csharp.Python.Coroutine.{Coroutine, History, World, run, followed_by}
use wu_kong_easy_sdk_csharp.Python.Coroutine.Script.{
  Script, give, assign, look_up, call, each, attempt, settled, gathered, resume, ◌>>=◌, ◌>>◌,
  try_finally, try_except,
}
use wu_kong_easy_sdk_csharp.Python.Coroutine.Ensures.{Ensures, run-Ensures}
use wu_kong_easy_sdk_csharp.Python.Coroutine.Leads.{
  Assertion, After, Leads, Leads-bind, Leads-weaken, Leads-try_finally, Leads-try_except, Keeps,
  Keeps-bind,
}
use wu_kong_easy_sdk_csharp.Python.Coroutine.Safe.{safe_rules, Safe-give}
use wu_kong_easy_sdk_csharp.Python.Coroutine.Asks.{
  made, made_same, Asks, Returns, Leads-call_returns,
}
use wu_kong_easy_sdk_csharp.Cluster.Scenario.{Call, Answer, Client, Report, Local}
use wu_kong_easy_sdk_csharp.Cluster.Scenario.Calls.{
  close_client, stop_node, close_log, wait_tasks, count, has_exited, is_running, random_token,
}
use wu_kong_easy_sdk_csharp.Cluster.Scenario.Clients.{Network}
use wu_kong_easy_sdk_csharp.Cluster.Scenario.Body.{gather_settled}
use wu_kong_easy_sdk_csharp.Cluster.Scenario.Run.{
  count_kind, count_events, close_cluster, cluster_scenarios,
}
use wu_kong_easy_sdk_csharp.Cluster.Scenario.Tracked.{
  new_clients, new_nodes, Neither, Tracked, Tracked-quiet, Keeps-assign, Keeps-call,
}
use wu_kong_easy_sdk_csharp.Cluster.Scenario.Quiet.{
  Quiet-count, Quiet-has_exited, Quiet-is_running, Quiet-random_token,
}
use wu_kong_easy_sdk_csharp.Cluster.Scenario.Kept.{keeps_rules, Keeps-cluster_body, Keeps-preserve}

abbrev pub asked : History Answer → List Call
asked h = map (λ e. e.0) h

-- What the `finally` asks for: every client at once and waits, every node at once and waits, then the
-- logs.
abbrev pub closing_calls : (clients nodes : List ℕ) → List Call
closing_calls clients nodes =
    Call.wait_tasks
    ∷ (map Call.close_client clients
        ++ (Call.wait_tasks
            ∷ Call.wait_tasks
            ∷ (map (λ n. Call.stop_node n false) nodes
                ++ (Call.wait_tasks ∷ map Call.close_log nodes))))

-- The `finally` was cancelled at one of its four waits: it has asked for the calls before it and no more.
pub record Cancelled (h : History Answer) : Type 0 where
  pub before : List Call
  pub closed : List Call
  pub left_out : List Call
  pub calls : asked h ≡ before ++ (closed ++ (Call.wait_tasks ∷ []))
  pub cut :
      closing_calls (made new_clients h) (made new_nodes h) ≡ closed ++ (Call.wait_tasks ∷ left_out)
  pub earlier : History Answer
  pub error : Exc
  pub raised : h ≡ earlier ++ ((Call.wait_tasks, err error) ∷ [])

-- The history shows that everything that was made has been told to close.
pub record Closed (h : History Answer) (s : Local) : Type 0 where
  pub before : List Call
  pub later : List Call
  pub calls : asked h ≡ before ++ (closing_calls (made new_clients h) (made new_nodes h) ++ later)

-- The closing has begun after h0 with the variables s0, and has asked for the calls of `closing`.
pub record Closing (h0 : History Answer) (s0 : Local) (closing : List Call) (h : History Answer)
    (s : Local) : Type 0 where
  pub same : s ≡ s0
  pub calls : asked h ≡ asked h0 ++ closing
  pub clients : made new_clients h ≡ made new_clients h0
  pub nodes : made new_nodes h ≡ made new_nodes h0

-- The same within a `finally` that began after h0 and was to ask for the calls of `all`.
pub record Cut (all_calls : List Call) (h0 h : History Answer) (s : Local) : Type 0 where
  pub closed : List Call
  pub left_out : List Call
  pub cut : all_calls ≡ closed ++ (Call.wait_tasks ∷ left_out)
  pub calls : asked h ≡ asked h0 ++ (closed ++ (Call.wait_tasks ∷ []))
  pub clients : made new_clients h ≡ made new_clients h0
  pub nodes : made new_nodes h ≡ made new_nodes h0
  pub earlier : History Answer
  pub error : Exc
  pub raised : h ≡ earlier ++ ((Call.wait_tasks, err error) ∷ [])

module _ (h0 : History Answer) (s0 : Local) (E : Assertion Answer Local) where
  Closing-call :
      (closing : List Call) (h : History Answer) (s : Local) (c : Call) (r : Answer c)
      → Neither c r
      → Closing h0 s0 closing h s
      → Closing h0 s0 (closing ++ (c ∷ [])) (h ++ ((c, r) ∷ [])) s
  Closing-call closing h s c r e k = record {
    same = k.same;
    calls =
        map-append (λ e. e.0) h ((c, r) ∷ [])
        ∙ ap (λ cs. cs ++ (c ∷ [])) k.calls
        ∙ append_assoc (asked h0) closing (c ∷ []);
    clients = made_same new_clients h c r e.0 ∙ k.clients;
    nodes = made_same new_nodes h c r e.1 ∙ k.nodes;
  }

  pub Closing-eq :
      {xs ys : List Call}
      → xs ≡ ys
      → (h : History Answer) (s : Local) → Closing h0 s0 xs h s
      → Closing h0 s0 ys h s
  Closing-eq e h s k = record {
    same = k.same;
    calls = k.calls ∙ ap (λ cs. asked h0 ++ cs) e;
    clients = k.clients;
    nodes = k.nodes;
  }

  -- A script that asks for one call, and does not raise.
  abbrev pub Closes : {A : Type 0} → Call → Script Answer Local A → Type 0
  Closes c m =
      (closing : List Call)
      → Leads (Closing h0 s0 closing) m (Closing h0 s0 (closing ++ (c ∷ []))) E

  pub close_client-Closes :
      (client : ℕ) → Closes (Call.close_client client) (attempt (close_client client))
  unfolding close_client attempt followed_by Ensures
  close_client-Closes client closing = record {
    at = λ h s k r. Closing-call closing h s _ r (refl, refl) k;
  }

  pub stop_node-Closes :
      (node : ℕ) → Closes (Call.stop_node node false) (attempt (stop_node node false))
  unfolding stop_node attempt followed_by Ensures
  stop_node-Closes node closing = record {
    at = λ h s k r. Closing-call closing h s _ r (refl, refl) k;
  }

  pub close_log-Closes : (node : ℕ) → Closes (Call.close_log node) (call (close_log node))
  unfolding close_log call followed_by Ensures
  close_log-Closes node closing = record {
    at = λ h s k r. Closing-call closing h s _ r (refl, refl) k;
  }

  pub settled-Closes :
      {A B : Type 0} (f : A → Coroutine Answer (Result B)) (c : A → Call)
      → ((a : A) → Closes (c a) (attempt (f a)))
      → (xs : List A) (closing : List Call)
      → Leads (Closing h0 s0 closing) (settled (map f xs)) (Closing h0 s0 (closing ++ map c xs)) E
  unfolding settled give Ensures
  settled-Closes f c k [] closing = record {
    at = λ h s t. Closing-eq (sym (append-nil closing)) h s t;
  }
  settled-Closes f c k (x ∷ xs) closing = Leads-bind (attempt (f x)) _ (k x closing) (λ r.
      Leads-bind (settled (map f xs)) _
        (Leads-weaken _ (Closing-eq (append_assoc closing (c x ∷ []) (map c xs))) (λ h s t. t)
          (settled-Closes f c k xs (closing ++ (c x ∷ []))))
        (λ rs. Safe-give (r ∷ rs)))

  pub each-Closes :
      {A : Type 0} (f : A → Script Answer Local (Unit {0})) (c : A → Call)
      → ((a : A) → Closes (c a) (f a))
      → (xs : List A) (closing : List Call)
      → Leads (Closing h0 s0 closing) (each f xs) (Closing h0 s0 (closing ++ map c xs)) E
  unfolding each give Ensures
  each-Closes f c k [] closing = record {
    at = λ h s t. Closing-eq (sym (append-nil closing)) h s t;
  }
  each-Closes f c k (x ∷ xs) closing = Leads-bind (f x) _ (k x closing) (λ u.
      Leads-weaken (each f xs) (Closing-eq (append_assoc closing (c x ∷ []) (map c xs)))
        (λ h s t. t) (each-Closes f c k xs (closing ++ (c x ∷ []))))

-- The waits of the `finally`, which may be cancelled.
module _ (h0 : History Answer) (s0 : Local) (all_calls : List Call) where
  waited :
      (closing left_out : List Call) (h : History Answer) (s : Local)
      → all_calls ≡ closing ++ (Call.wait_tasks ∷ left_out)
      → Closing h0 s0 closing h s
      → (r : Result (Unit {0}))
      → After
          (Closing h0 s0 (closing ++ (Call.wait_tasks ∷ [])))
          (Cut all_calls h0)
          (h ++ ((Call.wait_tasks, r) ∷ []))
          (r, s)
  waited closing left_out h s e k (ok u) =
      Closing-call h0 s0 (Cut all_calls h0) closing h s Call.wait_tasks (ok u) (refl, refl) k
  waited closing left_out h s e k (err x) =
      let next =
        Closing-call h0 s0 (Cut all_calls h0) closing h s Call.wait_tasks (err x) (refl, refl) k in
      record {
        closed = closing;
        left_out = left_out;
        cut = e;
        calls = next.calls;
        clients = next.clients;
        nodes = next.nodes;
        earlier = h;
        error = x;
        raised = refl;
      }

  wait_tasks-Closes :
      (closing left_out : List Call)
      → all_calls ≡ closing ++ (Call.wait_tasks ∷ left_out)
      → Leads
          (Closing h0 s0 closing)
          (call wait_tasks)
          (Closing h0 s0 (closing ++ (Call.wait_tasks ∷ [])))
          (Cut all_calls h0)
  unfolding wait_tasks call followed_by Ensures
  wait_tasks-Closes closing left_out e = record {
    at = λ h s k r. waited closing left_out h s e k r;
  }

  pub gather_settled-Closes :
      {A B : Type 0} (f : A → Coroutine Answer (Result B)) (c : A → Call)
      → ((a : A) → Closes h0 s0 (Cut all_calls h0) (c a) (attempt (f a)))
      → (xs : List A) (closing left_out : List Call)
      → all_calls ≡ closing ++ (Call.wait_tasks ∷ (map c xs ++ (Call.wait_tasks ∷ left_out)))
      → Leads
          (Closing h0 s0 closing)
          (gather_settled (map f xs))
          (Closing h0 s0 (closing ++ (Call.wait_tasks ∷ (map c xs ++ (Call.wait_tasks ∷ [])))))
          (Cut all_calls h0)
  unfolding gather_settled
  gather_settled-Closes f c k xs closing left_out e =
      Leads-bind _ _ (wait_tasks-Closes closing _ e) (λ a.
        Leads-bind _ _ (settled-Closes h0 s0 (Cut all_calls h0) f c k xs _) (λ rs.
          Leads-bind _ _
            (Leads-weaken _ (Closing-eq h0 s0 (Cut all_calls h0) (simp append_assoc)) (λ h s t. t)
              (wait_tasks-Closes _ left_out (e ∙ simp append_assoc)))
            (λ b. Safe-give rs)))
