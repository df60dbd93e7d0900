-- ===== src/TcpPipe.antt =====
-- `TcpPipe` of src/pipe.cpp and include/holesail/pipe.hpp: the bridge between a local TCP socket and
-- an encrypted stream. A method takes the results of the libuv and stream calls that it makes, and
-- returns the pipe with those calls on its trace, newest first. Log lines are left out.
pub mod World
pub mod Life
pub mod Accounting
pub mod Teardown
pub mod Calls
pub mod Gone
use holesail_cpp.Base.{
  ℕ, suc, ◌+◌, ◌-◌, ltb, leb, ◌==◌, if◌then◌else◌, Bool, true, false, not, ◌&&◌, ◌||◌, List, [],
  ◌∷◌, length, Bytes,
}
use holesail_cpp.Rc.{Rc, ok, fail, is_ok, uv_einval, uv_ecanceled}

-- `kHighWaterMark` and `kStreamHighWaterMark`
abbrev pub high_water_mark : ℕ
high_water_mark = 65536

abbrev pub stream_high_water_mark : ℕ
stream_high_water_mark = 262144

-- The calls that leave the pipe: into libuv, the stream side and the owner.
pub data Effect : Type 0 where
  tcp_connects : Effect
  read_starts : Effect
  read_stops : Effect
  tcp_writes : Bytes → Effect
  tcp_closes : Effect
  stream_writes : Bytes → Effect
  stream_pauses : Effect
  stream_resumes : Effect
  stream_closes : Effect
  calls_on_ready : Rc → Effect
  calls_on_destroy : Effect

-- A flag for each callback says whether it is set; `handle` says that `tcp_` is not null.
pub record TcpPipe : Type 0 where
  pub side_pause : Bool
  pub side_resume : Bool
  pub side_close : Bool
  pub handle : Bool
  pub on_ready : Bool
  pub on_destroy : Bool
  pub pending_bytes : ℕ
  pub stream_pending_bytes : ℕ
  pub inflight_writes : ℕ
  pub reading : Bool
  pub stream_paused : Bool
  pub stream_closed : Bool
  pub closing : Bool
  pub destroyed : Bool
  pub trace : List Effect

abbrev pub calls : Effect → TcpPipe → TcpPipe
calls e p = record p { trace = e ∷ p.trace }

-- A new pipe with its stream side and an owner's `on_destroy`.
unfoldable pub fresh : TcpPipe
fresh = record {
  side_pause = true;
  side_resume = true;
  side_close = true;
  handle = false;
  on_ready = false;
  on_destroy = true;
  pending_bytes = 0;
  stream_pending_bytes = 0;
  inflight_writes = 0;
  reading = false;
  stream_paused = false;
  stream_closed = false;
  closing = false;
  destroyed = false;
  trace = [];
}

-- `started` says whether `uv_read_start` returned 0.
unfoldable pub start_reading : Bool → TcpPipe → TcpPipe
start_reading started p =
    if p.reading || (p.destroyed || not p.handle)
    then p
    else record p { reading = started; trace = read_starts ∷ p.trace }

unfoldable pub stop_reading : TcpPipe → TcpPipe
stop_reading p =
    if not p.reading || not p.handle
    then p
    else record p { reading = false; trace = read_stops ∷ p.trace }

unfoldable pub resume_reading : Bool → TcpPipe → TcpPipe
resume_reading started p = if p.destroyed then p else start_reading started p

-- `if (stream_.close) stream_.close();`
unfoldable pub close_stream : TcpPipe → TcpPipe
close_stream p = if p.side_close then calls stream_closes p else p

-- The owner's callback, taken out before it is called.
unfoldable pub fire_on_destroy : TcpPipe → TcpPipe
fire_on_destroy p =
    if p.on_destroy then record p { on_destroy = false; trace = calls_on_destroy ∷ p.trace } else p

-- The end of `destroy`; `is_closing` is what `uv_is_closing` says of the handle.
unfoldable pub close_handle : Bool → TcpPipe → TcpPipe
close_handle is_closing p =
    if p.handle && not p.closing
    then if is_closing
      then fire_on_destroy (record p { closing = true })
      else record p { closing = true; trace = tcp_closes ∷ p.trace }
    else fire_on_destroy p

unfoldable pub destroy : Bool → TcpPipe → TcpPipe
destroy is_closing p =
    if p.destroyed
    then p
    else close_handle is_closing (close_stream (stop_reading (record p { destroyed = true })))

unfoldable pub closed_cb : TcpPipe → TcpPipe
closed_cb p = fire_on_destroy (record p { handle = false })

-- `flush_finished`
unfoldable pub flush_finished : Bool → TcpPipe → TcpPipe
flush_finished is_closing p =
    if not p.stream_closed || ltb 0 p.inflight_writes then p else destroy is_closing p

-- `connect` with the results of `uv_tcp_init`, `resolve_ip4` and `uv_tcp_connect`.
unfoldable pub connect : Rc → Rc → Rc → Bool → Bool → TcpPipe → Rc × TcpPipe
connect initialised resolved connected is_closing callback p =
    if p.destroyed
    then (uv_ecanceled, p)
    else if not (is_ok initialised)
    then (initialised, record p { handle = false })
    else if not (is_ok resolved)
    then (resolved, destroy is_closing (record p { handle = true }))
    else if not (is_ok connected)
    then (
      connected,
      destroy is_closing (calls tcp_connects (record p { handle = true; on_ready = callback })),
    )
    else (ok, calls tcp_connects (record p { handle = true; on_ready = callback }))

-- `adopt`; `given` says that the accepted handle is not null.
unfoldable pub adopt : Bool → Bool → TcpPipe → Rc × TcpPipe
adopt given started p =
    if p.destroyed || not given
    then (uv_einval, p)
    else (ok, start_reading started (record p { handle = true }))

-- `if (on_ready_) on_ready_(status);`
unfoldable pub fire_on_ready : Rc → TcpPipe → TcpPipe
fire_on_ready status p = if p.on_ready then calls (calls_on_ready status) p else p

unfoldable pub connect_cb : Rc → Bool → Bool → TcpPipe → TcpPipe
connect_cb status started is_closing p =
    if is_ok status
    then fire_on_ready ok (start_reading started p)
    else destroy is_closing (fire_on_ready status p)

-- What libuv hands to `read_cb`.
pub data Read : Type 0 where
  again : Read
  end_of_file : Read
  error : Read
  chunk : Bytes → Read

-- `n -= (k < n) ? k : n`
abbrev pub reduce : ℕ → ℕ → ℕ
reduce n k = n - (if ltb k n then k else n)

-- `accepted` says whether `stream_.write` returned 0 or more.
unfoldable pub read_chunk : Bytes → Bool → Bool → TcpPipe → TcpPipe
read_chunk bytes accepted is_closing p =
    let len = length bytes in
    let total = p.stream_pending_bytes + len in
    let submitted = record p {
      stream_pending_bytes = total;
      trace = stream_writes bytes ∷ p.trace;
    } in
    if not accepted
    then destroy is_closing (record submitted { stream_pending_bytes = reduce total len })
    else if leb stream_high_water_mark total
    then stop_reading submitted
    else submitted

unfoldable pub read_cb : Read → Bool → Bool → TcpPipe → TcpPipe
read_cb again accepted is_closing p = p
read_cb end_of_file accepted is_closing p = if p.destroyed then p else close_stream (stop_reading p)
read_cb error accepted is_closing p = if p.destroyed then p else destroy is_closing p
read_cb (chunk bytes) accepted is_closing p =
    if p.destroyed then p else read_chunk bytes accepted is_closing p

-- The drain callback that `read_cb` hands to the stream with a write of `len` bytes.
unfoldable pub on_drain : ℕ → Bool → TcpPipe → TcpPipe
on_drain len started p =
    let left = reduce p.stream_pending_bytes len in
    let acked = record p { stream_pending_bytes = left } in
    if ltb left stream_high_water_mark then resume_reading started acked else acked

-- `if (stream_.pause) stream_.pause();`, and the same for `resume`.
unfoldable pub pause_stream : TcpPipe → TcpPipe
pause_stream p = if p.side_pause then calls stream_pauses p else p

unfoldable pub resume_stream : TcpPipe → TcpPipe
resume_stream p = if p.side_resume then calls stream_resumes p else p

-- `queued` says whether `uv_write` returned 0.
unfoldable pub on_stream_data : Bytes → Bool → Bool → TcpPipe → TcpPipe
on_stream_data bytes queued is_closing p =
    if p.destroyed || (not p.handle || p.closing)
    then p
    else if length bytes == 0
    then p
    else if not queued
    then destroy is_closing (calls (tcp_writes bytes) p)
    else (let total = p.pending_bytes + length bytes in
        let written = record p {
          inflight_writes = p.inflight_writes + 1;
          pending_bytes = total;
          trace = tcp_writes bytes ∷ p.trace;
        } in
        if not p.stream_paused && leb high_water_mark total
        then pause_stream (record written { stream_paused = true })
        else written)

-- The `uv_write` callback for `bytes` bytes.
unfoldable pub write_cb : ℕ → Rc → Bool → TcpPipe → TcpPipe
write_cb bytes status is_closing p =
    let left = reduce p.pending_bytes bytes in
    let done = record p { inflight_writes = p.inflight_writes - 1; pending_bytes = left } in
    if not (is_ok status)
    then destroy is_closing done
    else if p.stream_paused && ltb left high_water_mark
    then flush_finished is_closing (resume_stream (record done { stream_paused = false }))
    else flush_finished is_closing done

unfoldable pub on_stream_close : Bool → TcpPipe → TcpPipe
on_stream_close is_closing p =
    if p.destroyed then p else flush_finished is_closing (record p { stream_closed = true })
