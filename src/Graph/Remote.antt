-- ===== src/Graph/Remote.antt =====
-- Participants and endpoints of other processes (rmw_gurumdds_cpp/src/graph_cache.cpp, the listener
-- functions of rmw_gurumdds_cpp/src/rmw_context_impl.cpp, and `guid_to_gid` of
-- rmw_gurumdds_cpp/include/rmw_gurumdds_cpp/gid.inl). The context of the participant is taken as set.
use rmw_gurumdds.Base.{
  ℕ, Bool, true, false, if◌then◌else◌, List, [], ◌∷◌, ◌++◌, take, Option, none, some,
}
use rmw_gurumdds.Event.Converter.{RmwRet, ret_ok, ret_error}
use rmw_gurumdds.Qos.{TimeLib}
use rmw_gurumdds.Rpc.Samples.{same_bytes}
use rmw_gurumdds.Graph.{Policies, Endpoint, CommonContext}
use rmw_gurumdds.Graph.Local as Local

-- `pad` are the zeros that fill the storage of a gid behind the 16 bytes of a guid.
unfoldable pub guid_to_gid : List ℕ → List ℕ → List ℕ
guid_to_gid pad guid = guid ++ pad

-- An answer of `rmw_take` on the topic ros_discovery_info: an error, or a message.
pub data InfoTake (Info : Type 0) : Type 0 where
  take_failed : InfoTake Info
  info_taken : Info → InfoTake Info

-- The builtin data of a writer or reader that DDS reports, with `for_participant` and the guid of the
-- endpoint, and its type hash: none where the user data has none.
pub record BuiltinEndpoint : Type 0 where
  pub guid : List ℕ
  pub participant_guid : List ℕ
  pub topic_name : List ℕ
  pub type_name : List ℕ
  pub type_hash : Option (List ℕ)
  pub policies : Policies

module _ {S Info : Type 0} (common : CommonContext S Info) where
  -- The loop of `on_participant_info`, over the answers that the reader has before it has no more.
  unfoldable pub on_participant_info : List (InfoTake Info) → S → S × RmwRet
  on_participant_info [] s = (s, ret_ok)
  on_participant_info (take_failed ∷ ts) s = (s, ret_error)
  on_participant_info (info_taken msg ∷ ts) s =
      if same_bytes (common.info_gid msg) common.gid
      then on_participant_info ts s
      else on_participant_info ts (common.update_participant_entities msg s)

  module _ (pad : List ℕ) where
    -- `enclave` may be null, and is then taken as empty.
    unfoldable pub add_participant : List ℕ → Option (List ℕ) → S → S × RmwRet
    unfolding guid_to_gid
    add_participant dp_guid enclave s =
        let gid = guid_to_gid pad dp_guid in
        if same_bytes gid common.gid
        then (s, ret_ok)
        else (common.add_participant gid (elim enclave [ none ↦ [] | some e ↦ e ]) s, ret_ok)

    unfoldable pub remove_participant : List ℕ → S → S × RmwRet
    unfolding guid_to_gid
    remove_participant dp_guid s =
        let gid = guid_to_gid pad dp_guid in
        if same_bytes gid common.gid then (s, ret_ok) else (common.remove_participant gid s, ret_ok)

    -- The overload of `remove_entity` for a guid; only the prefixes of 12 bytes are compared.
    unfoldable pub remove_remote_entity : List ℕ → Bool → S → S × RmwRet
    unfolding guid_to_gid
    remove_remote_entity guid is_reader s =
        let gid = guid_to_gid pad guid in
        if same_bytes (take 12 gid) (take 12 common.gid)
        then (s, ret_ok)
        else Local.remove_entity common gid is_reader s

    -- A handle that is nil tells that the participant has gone.
    unfoldable pub on_participant_changed : List ℕ → Option (List ℕ) → Bool → S → S
    unfolding add_participant remove_participant
    on_participant_changed dp_guid enclave handle_is_nil s =
        if handle_is_nil
        then (remove_participant dp_guid s).0
        else (add_participant dp_guid enclave s).0

    module _ (t : TimeLib) (depth_default : ℕ) (no_hash : List ℕ) where
      -- `no_hash` is the zero initialized hash.
      unfoldable pub add_remote_entity : BuiltinEndpoint → Policies → Bool → S → S × RmwRet
      unfolding guid_to_gid
      add_remote_entity e policies is_reader s =
          let endp_gid = guid_to_gid pad e.guid in
          let dp_gid = guid_to_gid pad e.participant_guid in
          let endpoint : Endpoint = record {
            topic_name = e.topic_name;
            type_name = e.type_name;
            type_hash = elim e.type_hash [ none ↦ no_hash | some h ↦ h ];
          } in
          if same_bytes dp_gid common.gid
          then (s, ret_ok)
          else Local.add_entity common t depth_default endp_gid dp_gid endpoint
              (record policies { history = none }) is_reader s

      unfoldable pub on_publication_changed : BuiltinEndpoint → Bool → S → S
      unfolding add_remote_entity remove_remote_entity
      on_publication_changed e handle_is_nil s =
          if handle_is_nil
          then (remove_remote_entity e.guid false s).0
          else (add_remote_entity e e.policies false s).0

      -- The reader's lifespan is passed as null; and `is_reader` is false where it has gone.
      unfoldable pub on_subscription_changed : BuiltinEndpoint → Bool → S → S
      unfolding add_remote_entity remove_remote_entity
      on_subscription_changed e handle_is_nil s =
          if handle_is_nil
          then (remove_remote_entity e.guid false s).0
          else (add_remote_entity e (record (e.policies) { lifespan = none }) true s).0
