-- ===== src/Context/Undo.antt =====
-- What a failed rmw_create_node leaves of the first node (rmw_gurumdds_cpp/src/rmw_node.cpp).
use rmw_gurumdds.Base.{
  ◌+◌, ◌%◌, ◌^◌, ◌==◌, ◌≡◌, refl, sym, ap, ◌∙◌, Bool, true, false, not, ◌&&◌, if◌then◌else◌, inl,
  inr, Bool-cases,
}
use mathlib.Core.Bool.{false≢true}
use rmw_gurumdds.Event.Converter.{RmwRet, ret_ok}
use rmw_gurumdds.Graph.{Node}
use rmw_gurumdds.Graph.Local.{is_ok}
use rmw_gurumdds.Context.{Context}
use rmw_gurumdds.Context.Finalize.{Deletion}
use rmw_gurumdds.Context.Initialize.{
  Creation, node_user_data, participant_steps, initialize_participant,
}
use rmw_gurumdds.Context.Nodes.{
  NodeAnswers, first_node, initialize_node, finalize_node, allocate_node, rmw_create_node,
}
use rmw_gurumdds.Context.Retry.{bare, emptied, IsDeleting, finalize_participant_lem}
use rmw_gurumdds.Context.Bare.{participant_steps-bare}

abbrev pub no_context : Context → Context
no_context c = record c { entity_context = false }

-- The two ends of `initialize_participant`: it succeeds, or what it has made is deleted.
data IsMade (c : Context) : Context × RmwRet → Type 0 where
  made : {c' : Context} {ret : RmwRet} → is_ok ret ≡ true → bare c' ≡ bare c → IsMade c (c', ret)
  unmade :
      {c' : Context} {ret : RmwRet}
      → is_ok ret ≡ false
      → no_context c' ≡ bare c
      → IsMade c (c', ret)

initialize_participant-IsMade :
    (a : Creation) (d : Deletion) (node : Node) (c : Context)
    → IsDeleting d
    → IsMade c (initialize_participant a d node c)
unfolding initialize_participant
initialize_participant-IsMade a d node c all_ =
    let user_data = node_user_data node.name node.namespace_ c.enclave in
    let steps = participant_steps a user_data c in
    elim (Bool-cases (is_ok steps.1)) [
      | inl done ↦
          rw (initialize_participant, done) (made done (participant_steps-bare a user_data c))
      | inr failed ↦
          rw (initialize_participant, failed)
            (unmade failed (
              ap (λ (x : Context × RmwRet). no_context x.0)
                (finalize_participant_lem d steps.0 all_)
              ∙ participant_steps-bare a user_data c))
    ]

finalize_node-last :
    (d : Deletion) (c : Context)
    → IsDeleting d
    → no_context (finalize_node d (record c { node_count = 1 })).0
      ≡ record (bare c) { node_count = 0 }
unfolding finalize_node
finalize_node-last d c all_ =
    ap (λ (x : Context × RmwRet). no_context x.0)
      (finalize_participant_lem d (record c { node_count = 0 }) all_)

-- What `rmw_create_node` does from the first node on.
rest : NodeAnswers → Deletion → Context × RmwRet → Context × Bool
rest n d x = if is_ok x.1 then allocate_node n d x.0 else (x.0, false)

first_node-refused :
    (c : Context) (ret : RmwRet) → is_ok ret ≡ false → first_node true (c, ret) ≡ (c, ret)
unfolding first_node
first_node-refused c ret refused = rw (first_node, refused) refl

first_node-done :
    (c : Context) (ret : RmwRet)
    → is_ok ret ≡ true
    → first_node true (c, ret) ≡ (record c { node_count = 1 }, ret_ok)
unfolding first_node
first_node-done c ret done = rw (first_node, done) refl

either_undone :
    (test : Bool) (x y : Context × Bool) (c : Context)
    → (test ≡ true → x.1 ≡ false → no_context x.0 ≡ c)
    → (test ≡ false → y.1 ≡ false → no_context y.0 ≡ c)
    → (if test then x else y).1 ≡ false
    → no_context (if test then x else y).0 ≡ c
either_undone true x y c first second = first refl
either_undone false x y c first second = second refl

allocate_node-undone :
    (n : NodeAnswers) (d : Deletion) (c c' : Context)
    → IsDeleting d
    → c.node_count ≡ 0
    → bare c' ≡ bare c
    → (allocate_node n d (record c' { node_count = 1 })).1 ≡ false
    → no_context (allocate_node n d (record c' { node_count = 1 })).0 ≡ bare c
unfolding allocate_node
allocate_node-undone n d c c' all_ none_yet same =
    either_undone
      (n.node_allocated && n.name_allocated && n.namespace_allocated && is_ok n.node_created) _ _
      (bare c) (λ there failed. absurd (false≢true (sym failed)))
      (λ missing failed.
        finalize_node-last d c' all_
        ∙ ap (λ (b : Context). record b { node_count = 0 }) same
        ∙ ap (λ k. record (bare c) { node_count = k }) (sym none_yet))

rest_undone :
    (n : NodeAnswers) (d : Deletion) (c : Context) (x : Context × RmwRet)
    → IsDeleting d
    → c.node_count ≡ 0
    → IsMade c x
    → (rest n d (first_node true x)).1 ≡ false
    → no_context (rest n d (first_node true x)).0 ≡ bare c
unfolding rest
rest_undone n d c _ all_ none_yet (unmade {c' = c'} {ret = ret} refused same) =
    rw (first_node-refused c' ret refused) (
      either_undone (is_ok ret) _ _ (bare c)
        (λ done failed. absurd (false≢true (sym refused ∙ done))) (λ refused failed. same))
rest_undone n d c _ all_ none_yet (made {c' = c'} {ret = ret} done same) =
    rw (first_node-done c' ret done) (allocate_node-undone n d c c' all_ none_yet same)

initialize_node-first :
    (a : Creation) (d : Deletion) (node : Node) (c : Context)
    → a.run_listener_thread ≡ true
    → c.node_count ≡ 0
    → initialize_node a d node c ≡ first_node true (initialize_participant a d node c)
unfolding initialize_node
initialize_node-first a d node c runs none_yet =
    ap
      (λ k.
        if not (k == 0)
        then (record c { node_count = (c.node_count + 1) % 2 ^ 64 }, ret_ok)
        else first_node a.run_listener_thread (initialize_participant a d node c))
      none_yet
    ∙ ap (λ b. first_node b (initialize_participant a d node c)) runs

-- In a context without nodes whose pointers are all null, where all deletions succeed and the listener
-- thread starts if asked to: a rmw_create_node that returns no node, whatever has failed, leaves
-- the context without nodes, with all pointers null and all else as it was, except that the
-- context of the participant for its listeners may have been set.
pub rmw_create_node-undone :
    (n : NodeAnswers) (a : Creation) (d : Deletion) (node : Node) (c : Context)
    → IsDeleting d
    → a.run_listener_thread ≡ true
    → c.node_count ≡ 0
    → c ≡ emptied c
    → (rmw_create_node n a d node c).1 ≡ false
    → no_context (rmw_create_node n a d node c).0 ≡ no_context c
unfolding rmw_create_node rest
rmw_create_node-undone n a d node c all_ runs none_yet empty failed =
    let first = initialize_participant a d node c in
    let undone : (rest n d (initialize_node a d node c)).1 ≡ false
        → no_context (rest n d (initialize_node a d node c)).0 ≡ bare c =
      rw (initialize_node-first a d node c runs none_yet)
        (rest_undone n d c first all_ none_yet (initialize_participant-IsMade a d node c all_)) in
    let same : no_context c ≡ bare c = ap no_context empty in
    either_undone
      (not (n.is_initialized && n.identifier_matches && n.name_is_valid && n.namespace_is_valid)) _
      _ (bare c) (λ refused failed. same)
      (λ valid. either_undone c.is_shutdown _ _ (bare c) (λ down failed. same) (λ up. undone))
      failed
    ∙ sym same
