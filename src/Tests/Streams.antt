-- ===== src/Tests/Streams.antt =====
-- Tests of the framing of datagrams, of the UDP pipe and proxy, and of the published record.
use holesail_cpp.Base.{
  ℕ, ◌+◌, ◌<◌, ◌≤◌, ◌++◌, ◌==◌, List, [], ◌∷◌, Bytes, codes, All, concat, length, true, false, not,
  some, none, ◌≡◌, ◌≢◌, refl, arith, if◌then◌else◌,
}
use holesail_cpp.Frame.{
  max_datagram, frame, frame_all, frame_len, front, body_front, incomplete, oversized, push,
  push_loop, push_chunks,
}
use holesail_cpp.Frame.Chunks.{push-settled, push_bounded, push_chunks-concat}
use holesail_cpp.Frame.RoundTrip.{push_chunks-frame_all}
use holesail_cpp.Record.{encode_record, decode_record}
use holesail_cpp.Record.RoundTrip.{decode_record-encode_record}
use holesail_cpp.UdpPipe.{UdpPipe, datagram}
use holesail_cpp.UdpPipe.Deliver.{deliver, deliver-push_chunks, deliver-frame_all}
use holesail_cpp.UdpProxy.{Address, Opened, client_key, find, new_proxy, recv_cb, on_stream_data}
use holesail_cpp.UdpProxy.Clients.{others_kept}

abbrev two_datagrams : List Bytes
two_datagrams = (7 ∷ 8 ∷ []) ∷ [] ∷ []

-- The twelve bytes of their frames, cut into three chunks.
abbrev three_chunks : List Bytes
three_chunks = (0 ∷ 0 ∷ []) ∷ (0 ∷ 2 ∷ 7 ∷ 8 ∷ 0 ∷ []) ∷ (0 ∷ 0 ∷ 0 ∷ []) ∷ []

frames_of_two : concat three_chunks ≡ frame_all two_datagrams
unfolding frame
frames_of_two = refl

two_small : All (λ d. length d ≤ max_datagram) two_datagrams
two_small = (omega arith, (omega arith, tt))

push_chunks-frame_all_example :
    ((push_chunks [] three_chunks).frames ≡ two_datagrams)
    × ((push_chunks [] three_chunks).accepted ≡ true)
push_chunks-frame_all_example =
    push_chunks-frame_all two_datagrams three_chunks two_small frames_of_two

-- A header that claims more than `kMaxDatagram`, and the start of a frame.
abbrev hostile : Bytes
hostile = 255 ∷ 255 ∷ 255 ∷ 255 ∷ []

abbrev partial_frame : Bytes
partial_frame = 0 ∷ 0 ∷ 0 ∷ 9 ∷ 1 ∷ []

push-settled_example :
    front (push [] hostile).buffer ≡ (if (push [] hostile).accepted then incomplete else oversized)
push-settled_example = push-settled [] hostile

partial_accepted : (push [] partial_frame).accepted ≡ true
unfolding push push_loop front body_front frame_len
partial_accepted = refl

push_bounded_example : length (push [] partial_frame).buffer < 4 + max_datagram
push_bounded_example = push_bounded [] partial_frame partial_accepted

nothing_waits : front [] ≡ incomplete
unfolding front
nothing_waits = refl

push_chunks-concat_example :
    ((push_chunks [] three_chunks).frames ≡ (push [] (concat three_chunks)).frames)
    × ((push_chunks [] three_chunks).accepted ≡ (push [] (concat three_chunks)).accepted)
push_chunks-concat_example = push_chunks-concat [] three_chunks nothing_waits

abbrev open_pipe : UdpPipe
open_pipe = record {
  side_write = true;
  side_close = true;
  sock = true;
  closing = false;
  buffer = [];
  on_destroy = true;
  destroyed = false;
  sent = [];
  written = [];
  trace = [];
}

deliver-push_chunks_example :
    ((deliver (hostile ∷ []) open_pipe).sent
      ≡ open_pipe.sent ++ (push_chunks open_pipe.buffer (hostile ∷ [])).frames)
    × ((deliver (hostile ∷ []) open_pipe).destroyed
        ≡ not (push_chunks open_pipe.buffer (hostile ∷ [])).accepted)
deliver-push_chunks_example = deliver-push_chunks (hostile ∷ []) open_pipe refl refl nothing_waits

deliver-frame_all_example :
    ((deliver three_chunks open_pipe).sent ≡ open_pipe.sent ++ two_datagrams)
    × ((deliver three_chunks open_pipe).destroyed ≡ false)
deliver-frame_all_example =
    deliver-frame_all two_datagrams three_chunks open_pipe two_small frames_of_two refl refl refl

abbrev name_of : ℕ → Bytes
name_of ip = ip ∷ []

abbrev here : Address
here = record { ip = 1; port = 53 }

abbrev writable : Opened
writable = record { writes = true; closes = true }

apart : client_key name_of here ≢ codes "other"
unfolding client_key
apart h = absurd (cc)

others_kept_example :
    (find
        (codes "other")
        (recv_cb name_of (datagram (7 ∷ [])) (some here) false writable true new_proxy).clients
      ≡ find (codes "other") new_proxy.clients)
    × (find (codes "other") (on_stream_data (codes "some") hostile new_proxy).clients
        ≡ find (codes "other") new_proxy.clients)
others_kept_example =
    others_kept name_of (datagram (7 ∷ [])) here false writable true (codes "some") hostile
      new_proxy (codes "other") apart (λ h. absurd (cc))

decode_record-encode_record_example :
    decode_record (encode_record (codes "10.0.0.1") (some true) 3000)
    ≡ some (record {
      host = codes "10.0.0.1";
      udp = some true;
      port = if 3000 == 0 then none else some 3000;
    })
decode_record-encode_record_example =
    decode_record-encode_record (codes "10.0.0.1") (some true) 3000 (omega arith)
