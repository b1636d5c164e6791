-- ===== src/Audio.antt =====
-- include/rawr/Audio.h: the audio devices and streams, over PortAudio (src/AudioPA.c) and on the
-- PS5 (src/AudioPS5.c).
pub mod Device
pub mod Stream
pub mod Ps5
