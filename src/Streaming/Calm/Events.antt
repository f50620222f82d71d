-- ===== src/Streaming/Calm/Events.antt =====
-- That no event of class `StreamingEngine` (shaka/js/shaka-player.compiled.debug.js) has a buffer cleared
-- while a segment is fetched.
