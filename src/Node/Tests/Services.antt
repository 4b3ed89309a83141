-- ===== src/Node/Tests/Services.antt =====
-- The envelopes, the single bearers, the command channel, the fusion service, the sweep and the
-- rendezvous at concrete inputs.
use rfmesh_workspace.Base.{
  ℕ, zero, suc, ◌+◌, ◌≤◌, ◌≡◌, refl, Bool, List, [], ◌∷◌, Option, none, some, true, false, ltb, leb,
  length, if◌then◌else◌, arith,
}
use rfmesh_workspace.Base.Results.{ok, err}
use rfmesh_workspace.Base.Dict.{number_key}
use rfmesh_workspace.Node.Envelope.{
  decode_error, BearingReport, Message, status, Tag, bearing_report, node_status, fix_event,
  unknown, Unpacked, raises, envelope, Codec, encode_envelope, decode_envelope, body_of,
}
use rfmesh_workspace.Node.Bearers.{WifiBearer, wifi_receive, HttpBearer}
use rfmesh_workspace.Node.Bearers.Delivery.{
  Arrival, sent, junk, datagrams_of, messages_of, wifi_receive-datagrams_of,
}
use rfmesh_workspace.Node.Channel.{Round, running, raised, run, max_exponent}
use rfmesh_workspace.Node.Channel.Backoff.{run_outage}
use rfmesh_workspace.Node.Fusion.{
  Fused, solved, FusionConfig, FusionService, fuse_round, update_last_seen, publish_fused,
}
use rfmesh_workspace.Node.Fusion as Fusion
use rfmesh_workspace.Node.Fusion.Rounds.{bearings_of, fuse_round_keeps_all}
use rfmesh_workspace.Node.Sweep.{L1SweepConfig, servo_angle_of}
use rfmesh_workspace.Node.Sweep.Arc.{StopsAt}
use rfmesh_workspace.Node.Rendezvous.{RendezvousConfig, scanner, Rung, acquire}
use rfmesh_workspace.Node.Rendezvous.Moves.{IsScan, acquire-IsScan}
use rfmesh_workspace.Node.Rendezvous.Cancel.{acquire-length}

-- A packing of tagged lists of numbers.
abbrev tag_byte : Tag → ℕ
tag_byte bearing_report = 1
tag_byte node_status = 2
tag_byte fix_event = 3
tag_byte unknown = 4

abbrev tag_of : ℕ → Tag
tag_of (suc zero) = bearing_report
tag_of (suc (suc zero)) = node_status
tag_of (suc (suc (suc zero))) = fix_event
tag_of _ = unknown

abbrev unpack : List ℕ → Unpacked (List ℕ)
unpack [] = raises
unpack (t ∷ rest) = envelope (some (tag_of t)) (some rest)

unpack_lem : (t : Tag) (p : List ℕ) → unpack (tag_byte t ∷ p) ≡ envelope (some t) (some p)
unpack_lem bearing_report p = refl
unpack_lem node_status p = refl
unpack_lem fix_event p = refl
unpack_lem unknown p = refl

abbrev dump : BearingReport ℕ → List ℕ
dump b = elim b.raw_pseudospectrum [ none ↦ b.rest ∷ [] | some spectrum ↦ b.rest ∷ (0 ∷ spectrum) ]

abbrev load : List ℕ → Option (BearingReport ℕ)
load [] = none
load (rest ∷ []) = some (record { raw_pseudospectrum = none; rest = rest })
load (rest ∷ (mark ∷ spectrum)) = some (record { raw_pseudospectrum = some spectrum; rest = rest })

load-dump :
    (o : Option (List ℕ)) (n : ℕ)
    → load (dump (record { raw_pseudospectrum = o; rest = n }))
      ≡ some (record { raw_pseudospectrum = o; rest = n })
load-dump none n = refl
load-dump (some spectrum) n = refl

abbrev codec : Codec ℕ (List ℕ) (List ℕ)
codec = record {
  Payload = List ℕ;
  packb = λ t p. tag_byte t ∷ p;
  unpackb = unpack;
  unpackb-packb = unpack_lem;
  dump_bearing = dump;
  dump_status = λ s. s;
  dump_fix = λ f. f;
  validate_bearing = load;
  validate_status = λ p. some p;
  validate_fix = λ p. some p;
  validate_bearing-dump_bearing = λ b. load-dump b.raw_pseudospectrum b.rest;
  validate_status-dump_status = λ s. refl;
  validate_fix-dump_fix = λ f. refl;
}

abbrev heartbeat : Message ℕ (List ℕ) (List ℕ)
heartbeat = status (9 ∷ 8 ∷ [])

abbrev on_wire : List ℕ
on_wire = 0 ∷ 0 ∷ 0 ∷ 3 ∷ 2 ∷ 9 ∷ 8 ∷ []

encoded : encode_envelope codec heartbeat ≡ ok on_wire
unfolding encode_envelope body_of
encoded = refl

cut_off : decode_envelope codec (0 ∷ 0 ∷ 0 ∷ 7 ∷ 2 ∷ []) ≡ err decode_error
unfolding decode_envelope
cut_off = refl

abbrev arrivals : List (Arrival codec)
arrivals = junk (0 ∷ 0 ∷ 0 ∷ 7 ∷ 2 ∷ []) cut_off ∷ sent heartbeat on_wire encoded ∷ []

abbrev wifi : WifiBearer
wifi = record { is_open = true; datagrams = [] }

wifi_receive-datagrams_of_example :
    wifi_receive codec (datagrams_of codec arrivals) wifi ≡ ok (messages_of codec arrivals)
wifi_receive-datagrams_of_example = wifi_receive-datagrams_of codec arrivals wifi refl

abbrev http : HttpBearer ℕ ℕ
http = record { status_enabled = true; bearing_posts = []; status_posts = [] }

abbrev lost : Round ℕ
lost = record { connects = false; turns = []; stops = false; random = 3; stops_asleep = false }

run_outage_example :
    run 10 (lost ∷ lost ∷ []) (running 1023)
    ≡ (if leb (1023 + 2) max_exponent then running (1023 + 2) else raised)
run_outage_example =
    run_outage 10 (lost ∷ lost ∷ []) 1023 (omega arith)
      ((refl, refl, refl), ((refl, refl, refl), tt))

abbrev fusion_config : FusionConfig
fusion_config = record { batch_window = 50; node_stale_after = 30; min_bearings_for_fix = 2 }

abbrev service : FusionService ℕ
service = record { last_seen = (4, 1) ∷ []; cot = some []; dashboard = some [] }

abbrev batch : List (Fusion.Message ℕ)
batch = Fusion.bearing 4 70 ∷ Fusion.status 5 ∷ Fusion.bearing 6 80 ∷ []

abbrev fuse_count : List ℕ → Fused ℕ
fuse_count bearings = solved (length bearings)

fuse_round_keeps_all_example : fuse_round fusion_config fuse_count false 900 920 batch service ≡ (
    if ltb (length (bearings_of batch)) 2
    then record service { last_seen = update_last_seen 900 batch service.last_seen }
    else publish_fused false
        (fuse_count (bearings_of batch))
        (record service { last_seen = update_last_seen 900 batch service.last_seen }))
fuse_round_keeps_all_example =
    fuse_round_keeps_all fusion_config fuse_count false 900 920 batch service (omega arith)

abbrev mount : RendezvousConfig
mount = record {
  half_circle = 180;
  boresight = 30;
  refine_step = 2;
  min_servo = 90;
  max_servo = 270;
}

abbrev rungs : List Rung
rungs =
    record { half_arc = 20; estimate = none } ∷ record { half_arc = 45; estimate = some 55 } ∷ []

peak : servo_angle_of 180 30 55 ≡ 205
unfolding servo_angle_of
peak = refl

abbrev stops_third : ℕ → Bool
stops_third k = leb 3 k

third-StopsAt : StopsAt stops_third 3
third-StopsAt k h = ground arith

acquire-IsScan_example : IsScan mount rungs (acquire mount scanner 60 rungs stops_third).1
acquire-IsScan_example = acquire-IsScan mount scanner 60 rungs stops_third (omega arith)

acquire-length_example : length (acquire mount scanner 60 rungs stops_third).1 ≤ 3
acquire-length_example = acquire-length mount stops_third 3 third-StopsAt scanner 60 rungs

abbrev sweep_config : L1SweepConfig
sweep_config = record { min_deg = 90; max_deg = 270; step_deg = 20; hold_on_peak = true }
