-- ===== src/Mesh/Examples.antt =====
-- Runs of the handler of the wireless driver.
use fbmeshd.Prelude.{inl, false, ◌≡◌, refl, ◌↔◌, none, some, [], ◌∷◌, arith}
use fbmeshd.Prelude.Int.{pos}
use fbmeshd.Mesh.{Bytes, bytes_beq, Exception, Result, ok, throw, ◌>>=◌, Ensures}
use fbmeshd.Mesh.Csv.{parse_csv_flag, process_all}
use fbmeshd.Mesh.Socket.{Event, NlError, receive, fold_messages, delivered, end_with, receive-fold}
use fbmeshd.Mesh.Messages.{Command}
use fbmeshd.Mesh.Settings.{
  Flags, Sizes, type_20, IsAcceptable, validate_configuration, validate_configuration_iff,
}
use fbmeshd.Mesh.Handler.{NetInterface, Nl80211Handler, Global, Driver, World, Yields}
use fbmeshd.Mesh.Wiphy.{populate_netifs, new_net_interface}
use fbmeshd.Mesh.Links.{Status, keys}
use fbmeshd.Mesh.Apply.{Parsers, construct, apply_configuration}
use fbmeshd.Mesh.Claims.{Claim}
use fbmeshd.Mesh.Softly.{Succeeds}
use fbmeshd.Mesh.Answered.{IsEnded, IsAnswering}
use fbmeshd.Mesh.Claimed.{IsReadable, apply_configuration-Succeeds}
use fbmeshd.Mesh.Constructed.{IsMeshing, construct-Yields}
use fbmeshd.Mesh.Commands.{KeyLengths}
use fbmeshd.Mesh.Join.{Authsae, join_meshes}
use fbmeshd.Mesh.Events.{EventKind, process_event}
use fbmeshd.Mesh.Callbacks.{has_key_lengths, estab_peer_link}
use fbmeshd.Mesh.Ignored.{weak_frame}
use fbmeshd.Mesh.Lengths.{refused, estab_peer_link_lengths}
use fbmeshd.Mesh.Samples.{
  sizes, digit, parsers, mesh0, flags, answer, driver, world, authsae, lengths, frames, candidate,
  peers, peer, event, short_keys, joined, count, batches, fresh, found,
}

receive-fold_example :
    receive count batches 0
    ≡ (fold_messages count (delivered batches).0 0 >>= end_with (delivered batches).1)
receive-fold_example = receive-fold count batches 0

validate_configuration_iff_example :
    (validate_configuration sizes digit mesh0 flags ≡ ok tt) ↔ IsAcceptable sizes digit mesh0 flags
validate_configuration_iff_example = validate_configuration_iff sizes digit mesh0 flags

construct-Yields_example :
    Yields
      (λ _ w. IsMeshing parsers mesh0 flags w.handler)
      (construct driver sizes parsers flags (world Global.unset []))
construct-Yields_example = construct-Yields driver sizes parsers flags (world Global.unset [])

weak_frame_example :
    process_event driver frames peers parsers flags EventKind.frame_received event joined
    ≡ (ok tt, joined)
weak_frame_example =
    weak_frame driver frames peers parsers flags event (0xD0 ∷ []) joined refl refl refl

estab_peer_link_lengths_example :
    estab_peer_link driver frames peers lengths (some peer) short_keys joined ≡ (ok tt, joined)
unfolding has_key_lengths
estab_peer_link_lengths_example =
    estab_peer_link_lengths driver frames peers lengths peer short_keys candidate false joined
      (refl, inl refl) (refused refl λ h. let wrong : 8 ≡ 16 = h.group_key in omega (arith, wrong))

-- The construction ends without an exception, with one interface, which is then joined.
construct_runs : (construct driver sizes parsers flags (world Global.unset [])).0 ≡ ok tt
unfolding bytes_beq fbmeshd.Mesh.Apply.construct fbmeshd.Mesh.Settings.validate_configuration
    fbmeshd.Mesh.Settings.is_every_type fbmeshd.Mesh.Settings.validate_encryption
    fbmeshd.Mesh.Csv.parse_csv_flag fbmeshd.Mesh.Apply.init_nl_sockets
    fbmeshd.Mesh.Apply.get_nl80211_multicast_groups fbmeshd.Mesh.Socket.receive
    fbmeshd.Mesh.Wiphy.populate_netifs fbmeshd.Mesh.Wiphy.on_wiphy fbmeshd.Mesh.Wiphy.current
    fbmeshd.Mesh.Wiphy.parse_bands fbmeshd.Mesh.Wiphy.parse_band fbmeshd.Mesh.Wiphy.read_ht
    fbmeshd.Mesh.Wiphy.read_vht fbmeshd.Mesh.Wiphy.read_rates fbmeshd.Mesh.Apply.add_groups
    fbmeshd.Mesh.Apply.apply_configuration fbmeshd.Mesh.Apply.apply_to fbmeshd.Mesh.Apply.claim
    fbmeshd.Mesh.Apply.emplace_all fbmeshd.Mesh.Apply.emplace_ordered fbmeshd.Mesh.Apply.free_rates
    fbmeshd.Mesh.Apply.is_usable fbmeshd.Mesh.Apply.set_configuration
    fbmeshd.Mesh.Apply.set_encryption fbmeshd.Mesh.Apply.set_limits fbmeshd.Mesh.Apply.set_options
    fbmeshd.Mesh.Apply.tear_down fbmeshd.Mesh.Apply.tear_down_all fbmeshd.Mesh.Apply.width_of_type
    fbmeshd.Mesh.Csv.lines fbmeshd.Mesh.Csv.process_all fbmeshd.Mesh.Handler.send
    fbmeshd.Mesh.Handler.send_and_receive fbmeshd.Mesh.Links.adjust
    fbmeshd.Mesh.Links.create_interface fbmeshd.Mesh.Links.delete_interface
    fbmeshd.Mesh.Links.is_valid fbmeshd.Mesh.Socket.batch fbmeshd.Mesh.Wiphy.add_frequencies
    fbmeshd.Mesh.Wiphy.add_supported_frequency fbmeshd.Mesh.Wiphy.get_supported_band
    fbmeshd.Mesh.Wiphy.is_frequency_supported fbmeshd.Mesh.Wiphy.new_net_interface
construct_runs = refl

join_runs :
    (join_meshes driver sizes lengths authsae
      (construct driver sizes parsers flags (world Global.unset [])).1).0
    ≡ ok Status.success
unfolding bytes_beq fbmeshd.Mesh.Apply.construct fbmeshd.Mesh.Settings.validate_configuration
    fbmeshd.Mesh.Settings.is_every_type fbmeshd.Mesh.Settings.validate_encryption
    fbmeshd.Mesh.Csv.parse_csv_flag fbmeshd.Mesh.Apply.init_nl_sockets
    fbmeshd.Mesh.Apply.get_nl80211_multicast_groups fbmeshd.Mesh.Socket.receive
    fbmeshd.Mesh.Wiphy.populate_netifs fbmeshd.Mesh.Wiphy.on_wiphy fbmeshd.Mesh.Wiphy.current
    fbmeshd.Mesh.Wiphy.parse_bands fbmeshd.Mesh.Wiphy.parse_band fbmeshd.Mesh.Wiphy.read_ht
    fbmeshd.Mesh.Wiphy.read_vht fbmeshd.Mesh.Wiphy.read_rates fbmeshd.Mesh.Apply.add_groups
    fbmeshd.Mesh.Apply.apply_configuration fbmeshd.Mesh.Apply.apply_to fbmeshd.Mesh.Apply.claim
    fbmeshd.Mesh.Apply.emplace_all fbmeshd.Mesh.Apply.emplace_ordered fbmeshd.Mesh.Apply.free_rates
    fbmeshd.Mesh.Apply.is_usable fbmeshd.Mesh.Apply.set_configuration
    fbmeshd.Mesh.Apply.set_encryption fbmeshd.Mesh.Apply.set_limits fbmeshd.Mesh.Apply.set_options
    fbmeshd.Mesh.Apply.tear_down fbmeshd.Mesh.Apply.tear_down_all fbmeshd.Mesh.Apply.width_of_type
    fbmeshd.Mesh.Csv.lines fbmeshd.Mesh.Csv.process_all fbmeshd.Mesh.Handler.send
    fbmeshd.Mesh.Handler.send_and_receive fbmeshd.Mesh.Links.adjust
    fbmeshd.Mesh.Links.create_interface fbmeshd.Mesh.Links.delete_interface
    fbmeshd.Mesh.Links.is_valid fbmeshd.Mesh.Socket.batch fbmeshd.Mesh.Wiphy.add_frequencies
    fbmeshd.Mesh.Wiphy.add_supported_frequency fbmeshd.Mesh.Wiphy.get_supported_band
    fbmeshd.Mesh.Wiphy.is_frequency_supported fbmeshd.Mesh.Wiphy.new_net_interface
    fbmeshd.Mesh.Join.join_meshes fbmeshd.Mesh.Links.visit_valid fbmeshd.Mesh.Commands.install_key
    fbmeshd.Mesh.Commands.register_for_auth_frames
    fbmeshd.Mesh.Commands.register_for_mesh_peering_frames fbmeshd.Mesh.Join.init_ampe
    fbmeshd.Mesh.Join.init_mesh fbmeshd.Mesh.Join.init_userspace
    fbmeshd.Mesh.Join.install_group_keys fbmeshd.Mesh.Join.join_mesh fbmeshd.Mesh.Join.join_message
    fbmeshd.Mesh.Join.join_one fbmeshd.Mesh.Join.join_params fbmeshd.Mesh.Join.join_setup
    fbmeshd.Mesh.Join.start_peering fbmeshd.Mesh.Links.set_link_flags fbmeshd.Mesh.Sae.basic_rate
    fbmeshd.Mesh.Sae.create_mesh_config fbmeshd.Mesh.Sae.create_sae_config
    fbmeshd.Mesh.Sae.fill_band fbmeshd.Mesh.Sae.fill_conf fbmeshd.Mesh.Sae.has_basic_rates
    fbmeshd.Mesh.Sae.set_supported_basic_rates
join_runs = refl

driver_ends : (c : Command) → IsEnded (delivered (answer c ∷ [])).1
driver_ends Command.get_wiphy = tt
driver_ends Command.get_family = tt
driver_ends Command.new_interface = tt
driver_ends _ = tt

driver_answers : IsAnswering driver
driver_answers = record { ends = λ m k. driver_ends m.command; address = λ as' k. refl }

flags_read : IsReadable driver parsers flags
unfolding fbmeshd.Mesh.Apply.width_of_type parse_csv_flag fbmeshd.Mesh.Csv.lines process_all
    bytes_beq
flags_read = record {
  width = 1;
  groups = pos b'9' ∷ [];
  mac = none;
  reads_width = refl;
  reads_groups = refl;
  reads_mac = refl;
}

apply_configuration-Succeeds_example :
    Succeeds
      (λ _ w. Claim parsers mesh0 flags ((0, fresh) ∷ []) w.handler.net_interfaces)
      (apply_configuration driver parsers flags found)
unfolding fresh fbmeshd.Mesh.Apply.is_usable fbmeshd.Mesh.Wiphy.is_frequency_supported
apply_configuration-Succeeds_example =
    apply_configuration-Succeeds driver parsers flags found driver_answers flags_read (λ e. cc)
      (refl, tt) (refl, tt) (inl (record { capable = refl; supported = inl refl; unused = refl }))
