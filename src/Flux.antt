-- ===== src/Flux.antt =====
-- Tracks as times between flux reversals: `Decoder` is include/FluxDecoder.h and
-- src/FluxDecoder.cpp, `Builder` is include/FluxTrackBuilder.h and src/FluxTrackBuilder.cpp.
pub mod Decoder
pub mod Builder
