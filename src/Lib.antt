-- ===== src/Lib.antt =====
-- The MOST Linux driver stack of mld-1.6.0: the core module (mostcore), which keeps a pool of
-- message buffers (MBOs) for each channel and hands them between application modules (AIMs) and
-- hardware modules (HDMs); of the hardware modules those for the MediaLB device (hdm-dim2) and for the
-- USB device (hdm-usb); and of the application modules those for ALSA (aim-sound) and for the network
-- stack (aim-network).
--
-- Parts and files:
-- - Common: lists and tests over the native numbers, signed integers (Common.Int), a memory of bytes
--   with memmove and memcpy (Common.Memory), and rows of one size (Common.Rows).
-- - Core.Types: the structures of mld-1.6.0/mostcore/mostcore.h and core.c.
-- - Core.Channel: the functions of mld-1.6.0/mostcore/core.c that move a buffer from list to list
--   (most_free_mbo_coherent, flush_channel_fifos, flush_trash_fifo, trash_mbo, nq_hdm_mbo, arm_mbo,
--   most_submit_mbo, most_write_completion, most_read_completion, channel_has_mbo, most_get_mbo,
--   most_put_mbo, one round of hdm_enqueue_thread, most_stop_enqueue, most_resume_enqueue). Its
--   children say what each function does to one measure: the places of a buffer (Copies), the
--   shares of the links (Balance, Floor), mbo_nq_level (Level), the links (Links), the lists that
--   are flushed (Flush) or filled (Arm).
-- - Core.Run: most_start_channel with arm_mbo_chain and run_enqueue_thread, and most_stop_channel.
-- - Core.System: a channel with what the HDM and the AIMs hold, and a step relation with one
--   constructor for each call, so that an order of steps is an interleaving of the parties. Its
--   children prove the measures of Core.Channel over any order of steps. System.Moves adds the parts
--   of starting and stopping, which allocate and free the buffers.
-- - Core.Text: texts as lists of codes, with strcmp, strsep and strlcpy.
-- - Core.Sysfs: the attributes of a channel that set and show its configuration (set_*_store,
--   set_*_show, available_*_show of mld-1.6.0/mostcore/core.c); Roundtrip relates them.
-- - Core.Registry: the lists of interfaces, channels and AIMs (split_string, get_channel_by_name).
--   Registry.Links has link_channel_to_aim, add_link_store, remove_link_store and links_show;
--   Registry.Interface has most_register_aim, most_deregister_aim, probe_aim, probe_config_set,
--   find_configuration, the configuration sets, most_register_interface and
--   most_deregister_interface. The other children are about what is written through a pointer to a
--   channel (Lookup), texts (Split), adding and removing a link (Undo), links to modules that are
--   gone (Dangling), a registration that fails (Failure) and a module that goes (Leave).
-- - Dim: the hardware abstraction layer of hdm-dim2 (mld-1.6.0/hdm-dim2/dim2_hal.c and its headers).
--   Dim.Types has the constants and structures, Dim.Sizes the checks and the buffer sizes, Dim.Channel
--   the two slots of a channel (channel_start, channel_service_interrupt, channel_service,
--   channel_detach_buffers) and the fill state of the asynchronous Tx channel (dbrcnt_init,
--   dbrcnt_enq, dim_dbr_space); its children are about the slots over any order of events (Slots),
--   the fill state (Fill) and the sizes that are accepted (Accept). Dim.Memory is the allocator
--   (dbr_get_mask_size, alloc_dbr, free_dbr): its children are about the search in one word (Try),
--   one allocation (Alloc) and any order of allocations and releases (Held). Dim.Init is dim_startup,
--   dim_shutdown, the four dim_init_* and dim_destroy_channel, with the global variables of the file.
--   Dim.Irq is dim_service_ahb_int_irq over the slots of all channels.
-- - Hdm: the driver of the MediaLB device (mld-1.6.0/hdm-dim2/dim2_hdm.c), on one channel: enqueue,
--   try_start_dim_transfer, service_done_flag, complete_all_mbos and poison_channel. Its children are
--   about its lists and the counters of Dim.Channel (Counts), what it keeps (Kept), its calls in any order
--   (Steps), and where a buffer is (Buffers). Hdm.Configure is configure_channel; its children are about
--   the counters that a channel starts with (Fresh) and its memory until poison_channel (Memory). It calls Dim.Channel and Dim.Init; Core.System has the core module's side.
-- - Usb: the driver of the USB device (mld-1.6.0/hdm-usb/hdm_usb.c): get_stream_frame_size. Usb.Padding
--   is hdm_add_padding and hdm_remove_padding, with the bytes that their loops leave (Frames) and the two
--   as a pair (Trip). Usb.Configure is hdm_configure_channel, with the sizes that it sets (Sizes).
--   Usb.Transfer is hdm_enqueue, hdm_write_completion, hdm_read_completion, hdm_poison_channel and
--   wq_clear_halt, with what a completion does (Outcome); Usb.Steps has the calls in any order, and
--   where a buffer is (Held).
-- - Sound: the module for ALSA (mld-1.6.0/aim-sound/sound.c). Sound.Swap is swap_copy16, swap_copy24 and
--   swap_copy32; Sound.Copy is the eight copy functions and copy_data, with what they do to samples
--   (Samples), frames (Chunks), the ring buffer (Ring) and the sequence of frames (Stream);
--   Sound.Periods is pcm_pointer over a sequence of buffers. Sound.Pcm is audio_set_hw_params and the
--   callbacks of a substream (pcm_open, pcm_close, pcm_hw_params, pcm_prepare, pcm_trigger), with the
--   formats (Formats). Sound.Card is get_channel, split_arg_list, audio_probe_channel,
--   audio_disconnect_channel and audio_exit, over any order of calls (Links), and the completions with a
--   round of playback_thread (Completions). Sound.Copy uses what Sound.Pcm prepares.
-- - Net: the module for the network stack (mld-1.6.0/aim-network/networking.c): skb_to_mamac, skb_to_mep
--   and the packets that aim_rx_data accepts, with what arrives (Frames). Net.Device is the network device
--   of an interface with aim_probe_channel, aim_disconnect_channel, aim_resume_tx_channel and
--   aim_rx_data, its counter (Counted), the calls of the stack and on_netinfo (Stack), and the calls of
--   the core in any order (Calls).
-- - Cdev: the module for character devices (mld-1.6.0/aim-cdev/cdev.c): the calls of user space
--   (aim_open, aim_close, aim_write, aim_read, aim_poll), aim_rx_completion and aim_disconnect_channel on
--   one channel. Cdev.Bytes has the bytes of a sequence of buffers, Cdev.Write is aim_write over any
--   sequence of calls, Cdev.Read is aim_read and aim_rx_completion likewise, and Cdev.Life is the life
--   of a channel, over its calls in any order (Calls). Cdev.Links is the list of the channels with get_channel, aim_probe, aim_disconnect_channel
--   and aim_tx_completion, with sums over it (Counts) and its calls in any order (Calls).
-- - I2c: the driver of a device on an I2C bus (mld-1.6.0/hdm-i2c/hdm_i2c.c): configure_channel, enqueue,
--   poison_channel, do_rx_work, pending_rx_work and most_irq_handler, and where a buffer is over any order
--   of them (Held).
--
-- Correspondence: a function that changes its channel returns the new channel. Every spinlock of
-- core.c covers one list access, so each function is one step. Signed counters are integers: they
-- stay within the number of buffers, a u16, except refs, which counts starts. The addresses of buffers
-- and AIMs are numbers. What configure, enqueue, poison_channel, rx_completion, the allocator and
-- kthread_run return are arguments. wait_for_completion is an outcome of its own (waiting). A link
-- with references is taken to have its AIM (the NULL dereference of the code has no counterpart), and
-- an interface to have its module (iface->mod is not null, so that most_stop_channel always puts it). The
-- quota test of most_get_mbo stands outside the spinlock in the code, and is part of its one step here.
--
-- In Core.Registry a pointer to a channel is a pair of positions; the calls of probe_channel and
-- disconnect_channel are recorded in a list and answer from a function, that is, they do not call
-- back. kstrtou16, the printer behind "%d", the id allocator and the memory are arguments. The limit
-- of one page in links_show is left out. A module registers once. most_deregister_interface leaves out
-- what the release functions of the kernel objects do, which flush the lists of the channels.
--
-- In Dim a mask of n low bits is a remainder by 2 ^ n, what is read from the hardware is an argument,
-- and what is written to it is a command in the result. The loop of dim_dbr_space has fuel for 32
-- rounds, one turn round its queue of 32 entries, and the search of alloc_dbr in a word has fuel for
-- its 32 places; both are proved to end within them. dim_service_ahb_int_irq has
-- fuel for one round more than twice the number of channels, which is proved to be enough: the hardware
-- may end further transfers during the interrupt, but has two buffers of a channel at most. A word of
-- the allocator is a function that gives its bits.
--
-- In Hdm a completion is recorded in a list: the completion handlers of the core module do not call
-- the driver back. A channel that is not null is meant by dim_enqueue_buffer and dim_detach_buffers.
--
-- In Usb a memory is a function from addresses, relative to virt_address, to bytes. What the USB core
-- decides is an argument: whether an URB can be allocated, what usb_submit_urb returns, and the status,
-- the length and the order with which URBs complete, also those that usb_kill_anchored_urbs unlinks. The
-- locks make each call a step of its own.
--
-- In Sound the two sides of a copy are different memories, and words stand with the low byte first.
-- Offsets, lengths and positions are computed modulo 2 ^ 32. A loop is the number of its rounds. What
-- ALSA, the kernel's threads and the core return is an argument, as are the width and the byte order of
-- a format. A runtime is that of the channel's substream. A call through the null pointer is none.
--
-- In Net a packet is a list of bytes. net_devices has one device for an interface at most, so a call is
-- modelled on the device of its interface; a race of two calls of aim_probe_channel is an argument of the
-- call. The interface of a call is not null. A use of a device that was freed is none.
--
-- In Cdev a buffer is the list of its bytes. A call runs its waiting loop over a list of rounds, each
-- with what it finds and how its wait ends; past the end of the list the process waits. The fifo is taken
-- to be long enough: it has a place for each buffer of the channel. What copy_from_user and copy_to_user
-- leave is an argument.
--
-- In I2c a call that a BUG_ON stops is none, and what the bus returns is an argument. The loop of
-- do_rx_work runs over a list of what happens while it waits; past its end the work still waits. The write
-- of a message that is longer than the array for it is an outcome of its own (overran).
--
-- Not modelled: the other hardware and application modules, the dispatch of sysfs in core.c, and
-- the platform code; the manifest names each with its reason.
pub mod Common
pub mod Core
pub mod Dim
pub mod Hdm
pub mod Usb
pub mod Sound
pub mod Net
pub mod Cdev
pub mod I2c
